-- ===== src/Mesh/KeyAgreement.antt =====
-- The keys of two nodes for the link between them.
use planetopia_nodes.Shared.{
  ℕ, ◌≡◌, refl, sym, ap, ◌∙◌, fun_ext, true, false, Option, none, some, List, [], ◌∷◌, ◌++◌, set,
  Bytes, all_are,
}
use planetopia_nodes.Mesh.Types.{Mac, EspPeer, Env}
use planetopia_nodes.Mesh.Peers.{is_peer_exist, register_peer_with_esp_now}
use planetopia_nodes.Mesh.KeyDerivation.{
  Mbedtls, Fatal, returns, halts, ◌>>=◌, ◌>>◌, must, in_buffer, pers_ecdh, kdf, shared_secret,
  derive_peer_lmk, generate_keypair,
}

-- What the code relies on: numbers of 32 bytes are read back as they were written, and both sides of a
-- key exchange come to the same secret, or fail together.
pub record IsDiffieHellman {Mpi Sha : Type 0} (lib : Mbedtls Mpi Sha) : Type 0 where
  pub private_stored :
      (r : ℕ) (d x : Mpi)
      → lib.gen_public r ≡ some (d, x)
      → lib.read_binary (lib.write_binary d) ≡ some d
  pub public_stored :
      (r : ℕ) (d x : Mpi)
      → lib.gen_public r ≡ some (d, x)
      → lib.read_binary (lib.write_binary x) ≡ some x
  pub commutes :
      (r s : ℕ) (d x e y z : Mpi)
      → lib.gen_public r ≡ some (d, x)
      → lib.gen_public s ≡ some (e, y)
      → lib.calc_secret d y z ≡ lib.calc_secret e x z

abbrev pub value {ℓ} : {A : Type ℓ} → A → Fatal A → A
value a (returns b) = b
value a (halts f) = a

-- The driver's entry of an enrolled peer.
abbrev pub linked : Mac → Bytes → EspPeer
linked mac lmk = record { addr = mac; encrypt = true; lmk = lmk }

module _ {Mpi Sha : Type 0} (lib : Mbedtls Mpi Sha) (law : IsDiffieHellman lib) where
  -- A keypair that the generator has made.
  abbrev Made : ℕ → Bytes × Bytes → Type 0
  Made r (p, q) =
      (d : Mpi) × (x : Mpi) × (lib.gen_public r ≡ some (d, x))
      × (lib.write_binary d ≡ p)
      × (lib.write_binary x ≡ q)

  must_returns {ℓ κ} :
      {A : Type ℓ} {B : Type κ} (n : ℕ) (o : Option A) (f : A → Fatal B) {b : B}
      → (must n o >>= f) ≡ returns b
      → (a : A) × (o ≡ some a) × (f a ≡ returns b)
  must_returns n none f h = absurd cc
  must_returns n (some a) f h = (a, refl, h)

  generated : (r : ℕ) (k : Bytes × Bytes) → generate_keypair lib r ≡ returns k → Made r k
  unfolding generate_keypair
  generated r k h =
      let (u, e, h₁) = must_returns 1 (lib.seed _) _ h in
      let (v, f, h₂) = must_returns 2 lib.group_load _ h₁ in
      let ((d, x), g, h₃) = must_returns 3 (lib.gen_public r) _ h₂ in
      (d, x, g, ap (λ t. (value k t).0) h₃, ap (λ t. (value k t).1) h₃)

  -- The exchange behind the two reads.
  abbrev exchange : Mpi → Mpi → Fatal Bytes
  exchange d y =
      must 10 (lib.seed pers_ecdh)
      >> (must 11 lib.setup
          >> (must 14 (lib.lset 1) >>= λ z.
              must 15 (lib.calc_secret d y z) >>= λ secret. returns (in_buffer secret)))

  shared_secret-exchange :
      (p q : Bytes) (d y : Mpi)
      → lib.read_binary p ≡ some d
      → lib.read_binary q ≡ some y
      → shared_secret lib p q ≡ exchange d y
  unfolding shared_secret
  shared_secret-exchange p q d y e f = rw (e, f) refl

  exchange_agrees :
      (r s : ℕ) (d x e y : Mpi)
      → lib.gen_public r ≡ some (d, x)
      → lib.gen_public s ≡ some (e, y)
      → exchange d y ≡ exchange e x
  exchange_agrees r s d x e y g h =
      ap (λ f. must 10 (lib.seed pers_ecdh) >> (must 11 lib.setup >> (must 14 (lib.lset 1) >>= f)))
        (fun_ext (λ z.
          ap (λ o. must 15 o >>= λ secret. returns (in_buffer secret))
            (law.commutes r s d x e y z g h)))

  -- Two nodes with keys of the generator derive the same key for the link between them, or both halt
  -- with the same fault.
  lmk_agrees :
      (r s : ℕ) (k l : Bytes × Bytes)
      → generate_keypair lib r ≡ returns k
      → generate_keypair lib s ≡ returns l
      → derive_peer_lmk lib k.0 l.1 ≡ derive_peer_lmk lib l.0 k.1
  unfolding derive_peer_lmk
  lmk_agrees r s k l g h =
      let (d, x, gd, dp, xq) = generated r k g in
      let (e, y, ge, ep, yq) = generated s l h in
      let read_d : lib.read_binary k.0 ≡ some d =
        ap lib.read_binary (sym dp) ∙ law.private_stored r d x gd in
      let read_x : lib.read_binary k.1 ≡ some x =
        ap lib.read_binary (sym xq) ∙ law.public_stored r d x gd in
      let read_e : lib.read_binary l.0 ≡ some e =
        ap lib.read_binary (sym ep) ∙ law.private_stored s e y ge in
      let read_y : lib.read_binary l.1 ≡ some y =
        ap lib.read_binary (sym yq) ∙ law.public_stored s e y ge in
      ap (λ o. o >>= kdf lib)
        (shared_secret-exchange k.0 l.1 d y read_d read_y
          ∙ exchange_agrees r s d x e y gd ge
          ∙ sym (shared_secret-exchange l.0 k.1 e x read_e read_x))

  -- The environment derives as the code does, where that returns.
  abbrev pub Derives : Env → Type 0
  Derives env =
      (own other lmk : Bytes)
      → derive_peer_lmk lib own other ≡ returns lmk
      → env.derive_lmk own other ≡ lmk

  registered :
      (env : Env) (table : List EspPeer) (mac : Mac) (own other lmk : Bytes)
      → Derives env
      → is_peer_exist table mac ≡ false
      → all_are 0 other ≡ false
      → derive_peer_lmk lib own other ≡ returns lmk
      → register_peer_with_esp_now env table mac own other ≡ table ++ linked mac lmk ∷ []
  unfolding register_peer_with_esp_now
  registered env table mac own other lmk d fresh set e =
      rw (fresh, set) (ap (λ k. table ++ linked mac k ∷ []) (d own other lmk e))

  -- Over a library that reads keys back as it wrote them and computes the same secret on both sides,
  -- two nodes with keypairs of the generator, no public key of them all zero, register each other with
  -- their drivers, where neither is registered yet: where one derives a key, and the environments
  -- derive as the code does, both drivers get an encrypted entry with that key.
  pub link_keys_agree :
      (r s : ℕ) (k l : Bytes × Bytes) (env env' : Env) (table table' : List EspPeer)
      (mac mac' : Mac) (lmk : Bytes)
      → generate_keypair lib r ≡ returns k
      → generate_keypair lib s ≡ returns l
      → Derives env
      → Derives env'
      → is_peer_exist table mac' ≡ false
      → is_peer_exist table' mac ≡ false
      → all_are 0 k.1 ≡ false
      → all_are 0 l.1 ≡ false
      → derive_peer_lmk lib k.0 l.1 ≡ returns lmk
      → (register_peer_with_esp_now env table mac' k.0 l.1 ≡ table ++ linked mac' lmk ∷ [])
        × (register_peer_with_esp_now env' table' mac l.0 k.1 ≡ table' ++ linked mac lmk ∷ [])
  link_keys_agree r s k l env env' table table' mac mac' lmk g h d d' fresh fresh' set set' e = (
    registered env table mac' k.0 l.1 lmk d fresh set' e,
    registered env' table' mac l.0 k.1 lmk d' fresh' set (sym (lmk_agrees r s k l g h) ∙ e),
  )
