-- ===== src/Http/Status.antt =====
-- internal/node/server/http.go: handleHealth and handleDebug.
use koorde_dht_web_cache.Prelude.{
  ℕ, ◌+◌, ◌*◌, Bool, true, false, ◌&&◌, Option, none, some, List, [], ◌∷◌, ltb, leb, if◌then◌else◌,
  length, Bytes, bytes_eq, codes,
}
use koorde_dht_web_cache.Domain.Hex.{Node, to_hex_string}
use koorde_dht_web_cache.Routing.{RoutingEntries}
use koorde_dht_web_cache.Actions.{Run, finishes, panics}
use koorde_dht_web_cache.Http.{DhtNode}

pub record Health : Type 0 where
  pub status_code : ℕ
  pub healthy : Bool
  pub status : Bytes
  pub node_id : Bytes
  pub protocol : Bytes
  pub successor_ready : Bool
  pub successor_count : ℕ
  pub de_bruijn_ready : Bool
  pub de_bruijn_count : ℕ
  pub required_de_bruijn : ℕ

pub record NodeText : Type 0 where
  pub id : Bytes
  pub addr : Bytes

abbrev node_text : Node → NodeText
node_text n = record { id = to_hex_string true n.id; addr = n.addr }

unfoldable pub node_texts : RoutingEntries → List NodeText
node_texts [] = []
node_texts (none ∷ entries) = node_texts entries
node_texts (some n ∷ entries) = node_text n ∷ node_texts entries

pub record DebugReply : Type 0 where
  pub self : NodeText
  pub predecessor : Option NodeText
  pub successors : List NodeText
  pub de_bruijn : List NodeText
  pub routing_table_bytes : ℕ

module _ {N : Type 0} (dht : DhtNode N) where
  -- Whether a Koorde node has a de Bruijn neighbour; other nodes need none.
  unfoldable pub de_bruijn_ready : N → Bool
  de_bruijn_ready n =
      if bytes_eq dht.protocol (codes "koorde") then leb 1 (length (dht.de_bruijn_list n)) else true

  unfoldable pub is_initialized : N → Bool
  is_initialized n =
      elim (dht.self n) [ none ↦ false | some self ↦ true ] && ltb 0 (length (dht.successor_list n))

  unfoldable pub handle_health : N → Health
  handle_health n =
      let healthy = is_initialized n && de_bruijn_ready n in
      record {
        status_code = if healthy then 200 else 503;
        healthy = healthy;
        status =
            if de_bruijn_ready n
            then (if is_initialized n then codes "READY" else codes "NOT_INITIALIZED")
            else codes "DEBRUIJN_NOT_READY";
        node_id = elim (dht.self n) [ none ↦ [] | some self ↦ to_hex_string true self.id ];
        protocol = dht.protocol;
        successor_ready = ltb 0 (length (dht.successor_list n));
        successor_count = length (dht.successor_list n);
        de_bruijn_ready = de_bruijn_ready n;
        de_bruijn_count = length (dht.de_bruijn_list n);
        required_de_bruijn = (dht.space n).graph_grade;
      }

  -- A node without self panics.
  unfoldable pub handle_debug : N → Run DebugReply
  handle_debug n = elim (dht.self n) [
    | none ↦ panics
    | some self ↦ finishes (record {
      self = node_text self;
      predecessor = elim (dht.predecessor n) [ none ↦ none | some pred ↦ some (node_text pred) ];
      successors = node_texts (dht.successor_list n);
      de_bruijn = node_texts (dht.de_bruijn_list n);
      routing_table_bytes =
          8
          + elim (dht.predecessor n) [ none ↦ 0 | some pred ↦ 8 ]
          + length (dht.successor_list n) * 8
          + length (dht.de_bruijn_list n) * 8;
    })
  ]
