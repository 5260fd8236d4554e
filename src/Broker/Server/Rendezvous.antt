-- ===== src/Broker/Server/Rendezvous.antt =====
-- Two peers under one token: dispatch of the broker, the codec and the decoder of the client together.
use kamune.Prelude.{ℕ, ◌+◌, ◌≢◌, Bool, Option, Bytes}
use kamune.Prelude.Dict
use kamune.Broker.Crypto.{Primitives, Laws}
use kamune.Broker.Server.{Registration, Server}
use kamune.Broker.Server.Peers.{Peer, IsPeer, IsStatic}

module _ (c : Primitives) (laws : Laws c) (ip_string : Bytes → Bytes)
    (allow : Option (Bytes → Bool)) (a b : Peer) (va : IsPeer c allow a) (vb : IsPeer c allow b)
    (token : Bytes) (t : IsStatic token) (different : a.key.public_key ≢ b.key.public_key) where
  held : Server → ℕ → Registration
  held s now = record { addr = a.src; peer_eph_pub = a.key.public_key; expires = now + s.ttl }
