-- ===== src/Protocol.antt =====
-- network/protocol/mod.rs: the control messages between peers. The crate `rmp_serde` is the parameter
-- `MessagePack`.
use uip.Base.{ℕ, ◌≡◌, List, map, ◌++◌, Result, ok, err, ◌>>=◌}
use uip.Data.Address.{plain}
use uip.Data.Identifier.{Identifier}
use uip.Data.Peer.{Peer}

pub record PeerInfo : Type 0 where
  pub peer : Peer

pub data Message : Type 0 where
  peer_info : PeerInfo → Message
  peer_info_request : Identifier → Message
  invalid : List ℕ → Message

-- A derived `Serialize` and `Deserialize` of `Message` through `rmp_serde`; a serialised message is
-- read back, but for what is not written of its addresses.
-- The addresses of a message without what `serde` does not write of them.
abbrev pub plain_peer : Peer → Peer
plain_peer p = record p { addresses = map plain p.addresses }

abbrev pub plain_message : Message → Message
plain_message (peer_info i) = peer_info (record { peer = plain_peer i.peer })
plain_message (peer_info_request id) = peer_info_request id
plain_message (invalid b) = invalid b

pub record MessagePack : Type 0 where
  pub serialize : Message → Result (List ℕ) (Unit {0})
  pub deserialize : List ℕ → Result Message (Unit {0})
  pub deserialize-serialize :
      (m : Message) (b : List ℕ) → serialize m ≡ ok b → deserialize b ≡ ok (plain_message m)

module _ (pack : MessagePack) where
  -- `buffer` is what the caller's buffer holds already.
  unfoldable pub serialize_to_msgpck : Message → List ℕ → Result (List ℕ) (Unit {0})
  serialize_to_msgpck m buffer = do written ← pack.serialize m; ok (buffer ++ written)

  unfoldable pub deserialize_from_msgpck : List ℕ → Message
  deserialize_from_msgpck buffer = elim (pack.deserialize buffer) [
    | ok m ↦ m
    | err _ ↦ invalid buffer
  ]
