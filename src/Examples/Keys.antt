-- ===== src/Examples/Keys.antt =====
-- A key exchange over a small group: keys of one byte, secrets that are sums.
use planetopia_nodes.Shared.{
  ℕ, ◌+◌, ◌%◌, ◌≡◌, refl, sym, ap, Option, none, some, [], ◌∷◌, ◌++◌, arith, replicate, Bytes,
  all_are,
}
use planetopia_nodes.Mesh.Types.{Env}
use planetopia_nodes.Mesh.Peers.{is_peer_exist, register_peer_with_esp_now}
use planetopia_nodes.Mesh.KeyDerivation.{
  Mbedtls, kdf, shared_secret, derive_peer_lmk, generate_keypair,
}
use planetopia_nodes.Mesh.KeyAgreement.{IsDiffieHellman, Derives, linked, value, link_keys_agree}
use planetopia_nodes.Examples.Data.{node_mac, peer_mac, env}

abbrev first : Bytes → Option ℕ
first [] = none
first (b ∷ bs) = some b

abbrev library : Mbedtls ℕ Bytes
library = record {
  seed = λ label. some tt;
  setup = some tt;
  lset = λ n. some n;
  read_binary = first;
  write_binary = λ n. n ∷ replicate 31 0;
  calc_secret = λ d x z. some ((d + x) % 256 ∷ []);
  group_load = some tt;
  gen_public = λ r. some (r, r);
  sha_starts = some [];
  sha_update = λ s bs. some (s ++ bs);
  sha_finish = λ s. some s;
}

same_number : (r d x : ℕ) → library.gen_public r ≡ some (d, x) → (d ≡ r) × (x ≡ r)
same_number r d x e =
    let pair_of : Option (ℕ × ℕ) → ℕ × ℕ = λ o. elim o [ none ↦ (r, r) | some p ↦ p ] in
    (sym (ap (λ o. (pair_of o).0) e), sym (ap (λ o. (pair_of o).1) e))

secrets_agree :
    (r s d x e y : ℕ)
    → (d ≡ r) × (x ≡ r)
    → (e ≡ s) × (y ≡ s)
    → library.calc_secret d y 1 ≡ library.calc_secret e x 1
secrets_agree r s d x e y (p, q) (u, v) = ap (λ n. some (n % 256 ∷ [])) (omega arith)

library-IsDiffieHellman : IsDiffieHellman library
library-IsDiffieHellman = record {
  private_stored = λ r d x e. refl;
  public_stored = λ r d x e. refl;
  commutes =
      λ r s d x e y z g h. secrets_agree r s d x e y (same_number r d x g) (same_number s e y h);
}

abbrev deriving_env : Env
deriving_env = record env { derive_lmk = λ own other. value [] (derive_peer_lmk library own other) }

deriving_env-Derives : Derives library library-IsDiffieHellman deriving_env
deriving_env-Derives own other lmk e = ap (value []) e

abbrev key_of : ℕ → Bytes
key_of n = n ∷ replicate 31 0

link_keys_agree_example :
    (register_peer_with_esp_now deriving_env [] peer_mac (key_of 3) (key_of 5)
      ≡ linked peer_mac (8 ∷ replicate 15 0) ∷ [])
    × (register_peer_with_esp_now deriving_env [] node_mac (key_of 5) (key_of 3)
        ≡ linked node_mac (8 ∷ replicate 15 0) ∷ [])
unfolding generate_keypair derive_peer_lmk shared_secret kdf is_peer_exist all_are
link_keys_agree_example =
    link_keys_agree library library-IsDiffieHellman 3 5 (key_of 3, key_of 3) (key_of 5, key_of 5)
      deriving_env deriving_env [] [] node_mac peer_mac (8 ∷ replicate 15 0) refl refl
      deriving_env-Derives deriving_env-Derives refl refl refl refl refl
