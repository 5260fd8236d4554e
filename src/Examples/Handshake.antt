-- ===== src/Examples/Handshake.antt =====
-- The handshake over toy primitives that have the documented laws. A toy secret is the key and the
-- ciphertext together, and a toy hash is the front of its text.
use kamune.Prelude.{
  ℕ, ◌+◌, ◌≡◌, refl, subst, arith, Option, none, some, List, [], ◌∷◌, ◌++◌, Bytes, length, take,
  drop, replicate, take-append, drop-append, length-take, length-append, length-replicate, ok, inl,
}
use kamune.Protocol.Serde.{Codec, Draws}
use kamune.Protocol.Transport.Delivery.{Letter, IsSendable, send_all, receive_all}
use kamune.Protocol.Network.{Io, Network, network, Steps}
use kamune.Protocol.Exchange.{Primitives, IsDocumented, Mlkem, new_mlkem}
use kamune.Protocol.Challenge.{Session, derive_resumption_tokens}
use kamune.Protocol.Route.{is_valid}
use kamune.Protocol.Handshake.Transcript.{transcript_injective}
use kamune.Protocol.Handshake.{
  Handshake, SignedSerde, HandshakeDraws, HandshakeError, request_handshake, accept_handshake,
}
use kamune.Protocol.Handshake.Agreement.{IsCarried, IsDrawn, IsAgreed}
use kamune.Protocol.Handshake.Steps.{agreed_id}
use kamune.Protocol.Handshake.Outcome.{handshake_any_order}
use kamune.Protocol.Handshake.Established.{
  AreTokens, derive_resumption_tokens-handshake, receive_all-handshake,
}
use kamune.Examples.Transport.{toy_crypto, IsKeyPair, toy_crypto-IsLawful}

abbrev front : ℕ → Bytes → Bytes
front n b = take n (b ++ replicate n 0)

length-front : (n : ℕ) (b : Bytes) → length (front n b) ≡ n
length-front n b = omega (
  arith,
  length-take n (b ++ replicate n 0),
  length-append b (replicate n 0),
  length-replicate {A = ℕ} n 0,
)

abbrev pub toy_primitives : Primitives
toy_primitives = record {
  generate_key = λ seed. some (take 1184 seed, take 1184 seed);
  encapsulate = λ key random. some (key ++ take 1088 random, take 1088 random);
  decapsulate = λ key ct. some (key ++ ct);
  hkdf = λ key salt info size. some (front size (key ++ (salt ++ info)));
  sha256 = λ b. front 32 b;
}

abbrev both : Bytes → Bytes → Option (Bytes × Bytes)
both a b = some (a, b)

halves : (a p q : Bytes) → both a a ≡ both p q → (p ≡ a) × (q ≡ a)
halves a p q e = ground arith

pub toy_primitives-IsDocumented : IsDocumented toy_primitives
toy_primitives-IsDocumented = record {
  decapsulate-encapsulate = λ seed random public_key private_key e. (
    public_key ++ take 1088 random,
    take 1088 random,
    refl,
    (let (p, q) = halves (take 1184 seed) public_key private_key e in rw (p, q) refl),
    omega (arith, length-take 1088 random),
  );
  length-generate_key = λ seed public_key private_key e.
      (let (p, q) = halves (take 1184 seed) public_key private_key e in
        rw p (omega (arith, length-take 1184 seed)));
  hkdf_reads = λ key salt info size h.
      (front size (key ++ (salt ++ info)), refl, length-front size (key ++ (salt ++ info)));
  length-sha256 = λ b. length-front 32 b;
}

abbrev unmarshal : Bytes → Option Handshake
unmarshal [] = none
unmarshal (k ∷ []) = none
unmarshal (k ∷ s ∷ b) =
    some (record { key = take k b; salt = take s (drop k b); session_key = drop s (drop k b) })

abbrev marshal : Handshake → Bytes
marshal h = length h.key ∷ length h.salt ∷ h.key ++ (h.salt ++ h.session_key)

abbrev pub toy_codec : Codec Handshake
toy_codec = record { marshal = λ h. some (marshal h); unmarshal = unmarshal }

unmarshal-marshal : (h : Handshake) → unmarshal (marshal h) ≡ some h
unmarshal-marshal h = rw (
  take-append (length h.key) h.key (h.salt ++ h.session_key) refl,
  drop-append (length h.key) h.key (h.salt ++ h.session_key) refl,
  take-append (length h.salt) h.salt h.session_key refl,
  drop-append (length h.salt) h.salt h.session_key refl,
)

same_bytes : (a b : Bytes) → some a ≡ some b → a ≡ b
same_bytes a b e = ground arith

pub toy_codec-IsCarried : IsCarried toy_crypto toy_codec
toy_codec-IsCarried = record {
  challenge = λ b l. (b, refl, omega arith);
  handshake = λ h k s i a. (
    marshal h,
    refl,
    omega
        (arith, length-append h.key (h.salt ++ h.session_key), length-append h.salt h.session_key),
  );
  handshake_back =
      λ h b e. subst (λ c. unmarshal c ≡ some h) (same_bytes (marshal h) b e) (unmarshal-marshal h);
}

abbrev pub letter_draws : Draws
letter_draws = record {
  id = 5 ∷ 6 ∷ [];
  timestamp = 1000;
  bump = 3;
  random = λ n. [];
  nonce = replicate 24 9;
}

abbrev pub draws_of : ℕ → HandshakeDraws
draws_of n = record {
  seed = n ∷ (n + 1) ∷ [];
  salt = replicate 16 n;
  text = replicate 12 n;
  envelope = letter_draws;
  challenge = letter_draws;
  verify = letter_draws;
}

pub alice_draws-IsDrawn : IsDrawn (draws_of 40)
alice_draws-IsDrawn = record { salt = refl; text = refl; challenge = refl; verify = refl }

pub bob_draws-IsDrawn : IsDrawn (draws_of 70)
bob_draws-IsDrawn = record { salt = refl; text = refl; challenge = refl; verify = refl }

abbrev pub alice : SignedSerde
alice = record { private_key = 1 ∷ []; remote = 2 ∷ [] }

abbrev pub bob : SignedSerde
bob = record { private_key = 2 ∷ []; remote = 1 ∷ [] }

abbrev pub alice_key_pair : Mlkem
alice_key_pair = record { public_key = 40 ∷ 41 ∷ []; private_key = 40 ∷ 41 ∷ [] }

pub alice_key_pair_generated : new_mlkem toy_primitives (40 ∷ 41 ∷ []) ≡ some alice_key_pair
unfolding new_mlkem
alice_key_pair_generated = refl

handshake_any_order_example :
    let start =
      network
        (request_handshake toy_crypto toy_codec toy_primitives alice [] (draws_of 40))
        (accept_handshake toy_crypto toy_codec toy_primitives bob [] (draws_of 70))
        []
        [] in
    (a b : Session) × IsAgreed IsKeyPair (agreed_id [] (draws_of 40) (draws_of 70)) a b
    × ((n : Network HandshakeError Session) (m : ℕ)
        → Steps m start n
        → (k : ℕ) × (12 ≡ m + k) × Steps k n (network (Io.done (ok a)) (Io.done (ok b)) [] []))
handshake_any_order_example =
    handshake_any_order toy_crypto toy_codec toy_primitives IsKeyPair toy_crypto-IsLawful
      toy_primitives-IsDocumented toy_codec-IsCarried alice bob refl refl (draws_of 40)
      (draws_of 70) alice_draws-IsDrawn bob_draws-IsDrawn [] alice_key_pair (inl refl)
      alice_key_pair_generated

derive_resumption_tokens-handshake_example :
    (a b : Session) × Steps 12
      (network
        (request_handshake toy_crypto toy_codec toy_primitives alice [] (draws_of 40))
        (accept_handshake toy_crypto toy_codec toy_primitives bob [] (draws_of 70))
        []
        [])
      (network (Io.done (ok a)) (Io.done (ok b)) [] [])
    × (derive_resumption_tokens toy_primitives a ≡ derive_resumption_tokens toy_primitives b)
    × AreTokens 20 (derive_resumption_tokens toy_primitives a)
derive_resumption_tokens-handshake_example =
    derive_resumption_tokens-handshake toy_crypto toy_codec toy_primitives IsKeyPair
      toy_crypto-IsLawful toy_primitives-IsDocumented toy_codec-IsCarried alice bob refl refl
      (draws_of 40) (draws_of 70) alice_draws-IsDrawn bob_draws-IsDrawn [] alice_key_pair (inl refl)
      alice_key_pair_generated

abbrev hello : Letter Bytes
hello = record { message = 65 ∷ []; route = 7; draws = letter_draws }

hello-IsSendable : IsSendable toy_crypto hello
unfolding is_valid
hello-IsSendable = record {
  valid = refl;
  open_route = λ e. absurd (omega arith);
  bytes = 65 ∷ [];
  marshals = refl;
  fits = omega arith;
  nonce = refl;
}

receive_all-handshake_example :
    (a b : Session) × Steps 12
      (network
        (request_handshake toy_crypto toy_codec toy_primitives alice [] (draws_of 40))
        (accept_handshake toy_crypto toy_codec toy_primitives bob [] (draws_of 70))
        []
        [])
      (network (Io.done (ok a)) (Io.done (ok b)) [] [])
    × (wires : List Bytes) × ((send_all toy_crypto a.keys a.counters (hello ∷ [])).1 ≡ ok wires)
    × ((receive_all toy_crypto b.keys b.counters wires).1 ≡ ok ((65 ∷ []) ∷ []))
    × (back : List Bytes) × ((send_all toy_crypto b.keys b.counters (hello ∷ [])).1 ≡ ok back)
    × ((receive_all toy_crypto a.keys a.counters back).1 ≡ ok ((65 ∷ []) ∷ []))
receive_all-handshake_example =
    receive_all-handshake toy_crypto toy_codec toy_primitives IsKeyPair toy_crypto-IsLawful
      toy_primitives-IsDocumented toy_codec-IsCarried alice bob refl refl (draws_of 40)
      (draws_of 70) alice_draws-IsDrawn bob_draws-IsDrawn [] alice_key_pair (hello ∷ []) (inl refl)
      alice_key_pair_generated (hello-IsSendable, tt)

abbrev short : ℕ → Handshake
short n = record { key = n ∷ []; salt = []; session_key = n ∷ [] }

transcript_injective_example : (short 1 ≡ short 1) × (short 2 ≡ short 2)
transcript_injective_example =
    transcript_injective (short 1) (short 1) (short 2) (short 2) (omega arith) (omega arith)
      (omega arith) (omega arith) refl

abbrev id7 : Bytes
id7 = 7 ∷ []

abbrev hash9 : Bytes
hash9 = replicate 32 9
