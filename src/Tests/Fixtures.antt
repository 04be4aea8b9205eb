-- ===== src/Tests/Fixtures.antt =====
-- Concrete parameters: buffers, serialisers, keys and an operating system that always succeeds.
use uip.Base.{
  map, ℕ, ◌+◌, ◌*◌, ◌/◌, ◌%◌, ◌<◌, ◌≡◌, refl, sym, List, [], ◌∷◌, ◌++◌, none, some, true, false,
  Result, ok, err, take, drop, replicate, All, arith, zero, suc,
}
use uip.Data.Address.{plain, SocketAddrV6, v6}
use uip.Data.Identifier.{Identifier}
use uip.Data.Openssl.{Openssl}
use uip.Data.Peer.{Peer}
use uip.Discovery.{LocalAddress}
use uip.Protocol.{plain_message, MessagePack, Message, peer_info, peer_info_request, invalid}
use uip.Transport.Codec.{ByteBuf}
use uip.Unix.Codec
use uip.Unix.Codec.{FramePack, bind, data_frame, error, network_unreachable, not_bound}
use uip.World.{Env, World}

abbrev read_pair : List ℕ → ℕ
read_pair (hi ∷ lo ∷ rest) = hi * 256 + lo
read_pair _ = 0

abbrev pub bytes : ByteBuf
bytes = record {
  put_u8 = λ b buf. buf ++ b ∷ [];
  put_u16 = λ n buf. buf ++ n / 256 ∷ n % 256 ∷ [];
  put = λ src buf. buf ++ src;
  advance = drop;
  split_to = λ n buf. (take n buf, drop n buf);
  read_u16 = read_pair;
  put_u8-append = λ b buf h. refl;
  put_u16-append = λ n buf h. refl;
  put-append = λ src buf. refl;
  advance-drop = λ n buf h. refl;
  split_to-take = λ n buf h. refl;
  read_u16-pair = λ hi lo. refl;
}

-- Peers without relays and with at most one address can be serialised.
abbrev serialize_peer : List SocketAddrV6 → List Identifier → List ℕ → Result (List ℕ) (Unit {0})
serialize_peer [] [] bs = ok (0 ∷ bs)
serialize_peer (a ∷ []) [] bs = ok (3 ∷ a.ip ∷ a.port ∷ bs)
serialize_peer (a ∷ b ∷ rest) rs bs = err tt
serialize_peer (a ∷ []) (r ∷ rs) bs = err tt
serialize_peer [] (r ∷ rs) bs = err tt

abbrev serialize_message : Message → Result (List ℕ) (Unit {0})
serialize_message (peer_info i) = serialize_peer i.peer.addresses i.peer.relays i.peer.id.bytes
serialize_message (peer_info_request id) = ok (1 ∷ id.bytes)
serialize_message (invalid b) = ok (2 ∷ b)

abbrev deserialize_message : List ℕ → Result Message (Unit {0})
deserialize_message (zero ∷ bs) = ok (
    peer_info
      (record { peer = record { id = record { bytes = bs }; addresses = []; relays = [] } }))
deserialize_message (suc zero ∷ bs) = ok (peer_info_request (record { bytes = bs }))
deserialize_message (suc (suc zero) ∷ bs) = ok (invalid bs)
deserialize_message (suc (suc (suc zero)) ∷ ip ∷ port ∷ bs) = ok (
    peer_info (record {
      peer = record {
        id = record { bytes = bs };
        addresses = record { ip = ip; port = port; flowinfo = 0; scope_id = 0 } ∷ [];
        relays = [];
      };
    }))
deserialize_message _ = err tt

abbrev unit_result : {A : Type 0} → A → Result A (Unit {0})
unit_result a = ok a

ok_injective : {A : Type 0} {a b : A} → unit_result a ≡ ok b → a ≡ b
ok_injective e = cc

read_peer :
    (addresses : List SocketAddrV6) (rs : List Identifier) (bs b : List ℕ)
    → serialize_peer addresses rs bs ≡ ok b
    → deserialize_message b
      ≡ ok (
          peer_info (record {
            peer = record {
              id = record { bytes = bs };
              addresses = map plain addresses;
              relays = rs;
            };
          }))
read_peer [] [] bs b e = rw (sym (ok_injective e)) refl
read_peer (a ∷ []) [] bs b e = rw (sym (ok_injective e)) refl
read_peer (a ∷ c ∷ rest) rs bs b e = cc
read_peer (a ∷ []) (r ∷ rs) bs b e = cc
read_peer [] (r ∷ rs) bs b e = cc

pub read_message :
    (m : Message) (b : List ℕ)
    → serialize_message m ≡ ok b
    → deserialize_message b ≡ ok (plain_message m)
read_message (peer_info i) b e = read_peer i.peer.addresses i.peer.relays i.peer.id.bytes b e
read_message (peer_info_request id) b e = rw (sym (ok_injective e)) refl
read_message (invalid c) b e = rw (sym (ok_injective e)) refl

abbrev pub pack : MessagePack
pack = record {
  serialize = serialize_message;
  deserialize = deserialize_message;
  deserialize-serialize = read_message;
}

-- Of the data frames, those with one byte and an identifier of one byte are serialised.
abbrev serialize_data : List ℕ → ℕ → List ℕ → Result (List ℕ) (Unit {0})
serialize_data (a ∷ []) p (b ∷ []) = ok (3 ∷ a ∷ p ∷ b ∷ [])
serialize_data _ p payload = err tt

abbrev serialize_frame : Codec.Frame → Result (List ℕ) (Unit {0})
serialize_frame (bind p) = ok (0 ∷ p ∷ [])
serialize_frame (data_frame id p payload) = serialize_data id.bytes p payload
serialize_frame (error network_unreachable) = ok (1 ∷ [])
serialize_frame (error not_bound) = ok (2 ∷ [])

abbrev frame_from_slice : List ℕ → Result Codec.Frame (Unit {0})
frame_from_slice (zero ∷ p ∷ rest) = ok (bind p)
frame_from_slice (suc zero ∷ rest) = ok (error network_unreachable)
frame_from_slice (suc (suc zero) ∷ rest) = ok (error not_bound)
frame_from_slice (suc (suc (suc zero)) ∷ a ∷ p ∷ b ∷ rest) =
    ok (data_frame (record { bytes = a ∷ [] }) p (b ∷ []))
frame_from_slice _ = err tt

read_data :
    (id : List ℕ) (p : ℕ) (payload b rest : List ℕ)
    → serialize_data id p payload ≡ ok b
    → frame_from_slice (b ++ rest) ≡ ok (data_frame (record { bytes = id }) p payload)
read_data (a ∷ []) p (x ∷ []) b rest e = rw (sym (ok_injective e)) refl
read_data [] p payload b rest e = cc
read_data (a ∷ []) p [] b rest e = cc
read_data (a ∷ []) p (x ∷ y ∷ payload) b rest e = cc
read_data (a ∷ c ∷ id) p payload b rest e = cc

pub read_frame :
    (f : Codec.Frame) (b rest : List ℕ)
    → serialize_frame f ≡ ok b
    → frame_from_slice (b ++ rest) ≡ ok f
read_frame (bind p) b rest e = rw (sym (ok_injective e)) refl
read_frame (data_frame id p payload) b rest e = read_data id.bytes p payload b rest e
read_frame (error network_unreachable) b rest e = rw (sym (ok_injective e)) refl
read_frame (error not_bound) b rest e = rw (sym (ok_injective e)) refl

abbrev pub frame_pack : FramePack
frame_pack = record {
  serialize = serialize_frame;
  from_slice = frame_from_slice;
  from_slice-serialize = read_frame;
}

pub All-replicate : (n b : ℕ) → b < 256 → All (λ c. c < 256) (replicate n b)
All-replicate zero b h = tt
All-replicate (suc n) b h = (h, All-replicate n b h)

pub sym_twice :
    {a b c : List ℕ} → unit_result a ≡ ok b → unit_result b ≡ ok c → unit_result c ≡ ok a
sym_twice e f = cc

-- A key is its public half, and a certificate is the key that it carries.
abbrev pub ssl : Openssl
ssl = record {
  ErrorStack = Unit {0};
  PublicKey = List ℕ;
  PrivateKey = List ℕ;
  X509 = List ℕ;
  X509Builder = List ℕ;
  X509Name = List ℕ;
  Asn1Time = ℕ;
  public_half = λ k. k;
  public_key_to_der = λ k. ok k;
  sha256 = λ m. replicate 32 7;
  rsa_generate = ok (5 ∷ []);
  common_name = λ t. ok t;
  days_from_now = λ d. ok d;
  builder = ok [];
  set_version = λ v b. ok b;
  set_not_before = λ t b. ok b;
  set_not_after = λ t b. ok b;
  set_subject_name = λ n b. ok b;
  set_issuer_name = λ n b. ok b;
  set_pubkey = λ k b. ok k;
  sign = λ k b. ok b;
  build = λ b. b;
  public_key = λ c. ok c;
  private_key_to_pem = λ k. ok k;
  private_key_from_pem = λ t. ok t;
  x509_to_pem = λ c. ok c;
  x509_from_pem = λ t. ok t;
  length-sha256 = λ m. refl;
  sha256-byte = λ m. All-replicate 32 7 (omega arith);
  public_key-build = λ k p b b' b'' e f. sym_twice e f;
  private_key-pem = λ k t e. sym e;
  x509-pem = λ c t e. sym e;
}

abbrev pub alice : Identifier
alice = record { bytes = replicate 32 1 }

abbrev pub bob : Identifier
bob = record { bytes = replicate 32 2 }

pub alice-byte : All (λ c. c < 256) (replicate 32 1)
alice-byte = All-replicate 32 1 (omega arith)

abbrev pub address : SocketAddrV6
address = record { ip = 42; port = 7; flowinfo = 0; scope_id = 0 }

abbrev pub other_address : SocketAddrV6
other_address = record { ip = 43; port = 7; flowinfo = 0; scope_id = 0 }

abbrev pub host_address : LocalAddress
host_address = record { interface = record { bytes = [] }; address = address }

abbrev pub bob_peer : Peer
bob_peer = record { id = bob; addresses = []; relays = [] }

abbrev pub env : Env
env = record {
  sink_open = λ c t. true;
  upstream_open = λ t. true;
  udp_bind = λ l t. ok (v6 l.address);
  acceptor = λ t. true;
  configure = λ t. true;
  into_ssl = λ i t. none;
  ssl_stream = λ t. none;
  handshake = λ a t. some bob;
}

-- A daemon without sockets, as it starts.
abbrev pub started : World
started = record {
  network = record {
    identifier = alice;
    pib = record { peers = [] };
    relays = [];
    port = 7;
    sockets = [];
  };
  store = λ r. record {
    address = host_address;
    io_socket = record { connections = []; address = host_address; upd_address = v6 address };
    connections = [];
    closed = true;
  };
  next_socket = 0;
  next_channel = 0;
  trace = [];
}

-- A daemon with one socket, which has a connection to `bob`.
abbrev pub connected : World
connected = record {
  network = record {
    identifier = alice;
    pib = record { peers = [] };
    relays = bob ∷ [];
    port = 7;
    sockets = (address, 0) ∷ [];
  };
  store = λ r. record {
    address = host_address;
    io_socket = record { connections = []; address = host_address; upd_address = v6 address };
    connections = (bob, record { sink = 3 }) ∷ [];
    closed = false;
  };
  next_socket = 1;
  next_channel = 4;
  trace = [];
}
