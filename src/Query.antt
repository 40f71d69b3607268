-- ===== src/Query.antt =====
-- internal/client/query.go: the calls that the clients make. What the generated stub returns is an
-- argument, and the time that a call took is left out.
pub mod Stores
use koorde_dht_web_cache.Prelude.{
  Option, none, some, List, [], ◌∷◌, Bytes, Result, returned, refused,
}
use koorde_dht_web_cache.Domain.Proto.{NodeInfo, ClientResource}
use koorde_dht_web_cache.Server.Clients.{RoutingReply}

-- The codes of a gRPC status that the code tells apart.
pub data StatusCode : Type 0 where
  not_found unavailable deadline_exceeded other_code : StatusCode

-- An error of a call: its code, or none when it is no gRPC status.
abbrev pub CallError : Type 0
CallError = Option StatusCode

pub data QueryError : Type 0 where
  err_not_found err_unavailable err_deadline_exceeded err_internal : QueryError

-- normalizeError of an error that is not nil.
unfoldable pub normalize_error : CallError → QueryError
normalize_error none = err_internal
normalize_error (some not_found) = err_not_found
normalize_error (some unavailable) = err_unavailable
normalize_error (some deadline_exceeded) = err_deadline_exceeded
normalize_error (some other_code) = err_internal

unfoldable pub normalize : {A : Type 0} → Result CallError A → Result QueryError A
normalize (returned a) = returned a
normalize (refused e) = refused (normalize_error e)

unfoldable pub put : Result CallError (Unit {0}) → Result QueryError (Unit {0})
put reply = normalize reply

unfoldable pub get : Result CallError Bytes → Result QueryError Bytes
get reply = normalize reply

unfoldable pub delete : Result CallError (Unit {0}) → Result QueryError (Unit {0})
delete reply = normalize reply

unfoldable pub lookup : Result CallError (Option NodeInfo) → Result QueryError (Option NodeInfo)
lookup reply = normalize reply

unfoldable pub get_routing_table : Result CallError RoutingReply → Result QueryError RoutingReply
get_routing_table reply = normalize reply

-- The items of the messages up to the error that ends the stream, whatever it is.
unfoldable pub received : List (Option ClientResource) → List ClientResource
received [] = []
received (none ∷ messages) = received messages
received (some item ∷ messages) = item ∷ received messages

unfoldable pub get_store :
    Result CallError (List (Option ClientResource)) → Result QueryError (List ClientResource)
get_store (refused e) = refused (normalize_error e)
get_store (returned messages) = returned (received messages)
