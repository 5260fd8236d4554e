-- ===== src/Broker/Server/Refresh.antt =====
-- Registering again under a token that the peer itself holds.
use kamune.Prelude.{ℕ, ◌+◌, ◌≡◌, refl, ◌∙◌, Bool, Option, some, [], Bytes, bytes_equal_refl}
use kamune.Prelude.Dict
use kamune.Broker.Crypto.{Primitives, Laws}
use kamune.Broker.Server.{Registration, Server, Draws, hex_key, static_register, dispatch}
use kamune.Broker.Server.Peers.{Peer, IsPeer, IsStatic, registers, dispatch-registers}

-- A peer that registers again, perhaps from another source address or claiming another one, is sent
-- nothing. Its entry gets a full term and keeps the address of the first registration.
pub reregister_keeps_address :
    (c : Primitives) (laws : Laws c) (ip_string : Bytes → Bytes) (allow : Option (Bytes → Bool))
    (p : Peer) (v : IsPeer c allow p) (token : Bytes) (t : IsStatic token) (s : Server)
    (held : Registration) (now : ℕ) (draws : Draws)
    → Dict.lookup (hex_key token) s.registry ≡ some held
    → held.peer_eph_pub ≡ p.key.public_key
    → let (s', out) = dispatch c ip_string allow s (registers p token) p.src now draws in
      (out ≡ [])
      × (Dict.lookup (hex_key token) s'.registry
          ≡ some
              (record { addr = held.addr; peer_eph_pub = p.key.public_key; expires = now + s.ttl }))
unfolding static_register
reregister_keeps_address c laws ip_string allow p v token t s held now draws e own =
    rw (dispatch-registers c laws ip_string allow p v token t s now draws) (
      rw (e, static_register)
        (rw (own, bytes_equal_refl p.key.public_key)
          (
            refl,
            Dict.lookup-insert (hex_key token) (hex_key token) _ s.registry
                ∙ rw (bytes_equal_refl (hex_key token)),
          )))
