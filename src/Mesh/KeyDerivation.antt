-- ===== src/Mesh/KeyDerivation.antt =====
-- derivePeerLMK and the key generator of loadOrGenerateKeypair (Mesh.cpp), over the calls of mbedTLS.
use planetopia_nodes.Shared.{ℕ, Option, none, some, [], ◌∷◌, ◌++◌, take, replicate, Bytes}
use planetopia_nodes.Errors.Codes.{ErrorTypeDigit, ModuleDigit, Fault, fault}

-- The calls of mbedTLS, `none` where one does not return 0. The seeds say whether
-- mbedtls_ctr_drbg_seed takes the label; gen_public draws from a random number; calc_secret is given
-- the private number and the X of the peer's point, with Z as set by mpi_lset.
pub record Mbedtls (Mpi Sha : Type 0) : Type 0 where
  pub seed : Bytes → Option (Unit {0})  -- mbedtls_ctr_drbg_seed
  pub setup : Option (Unit {0})  -- mbedtls_ecdh_setup
  pub lset : ℕ → Option Mpi  -- mbedtls_mpi_lset
  pub read_binary : Bytes → Option Mpi  -- mbedtls_mpi_read_binary
  pub write_binary : Mpi → Bytes  -- mbedtls_mpi_write_binary, of 32 bytes
  pub calc_secret : Mpi → Mpi → Mpi → Option Bytes  -- mbedtls_ecdh_calc_secret, of d, Qp.X and Qp.Z
  pub group_load : Option (Unit {0})  -- mbedtls_ecp_group_load
  pub gen_public : ℕ → Option (Mpi × Mpi)  -- mbedtls_ecdh_gen_public: d and Q.X
  pub sha_starts : Option Sha  -- mbedtls_sha256_starts
  pub sha_update : Sha → Bytes → Option Sha  -- mbedtls_sha256_update
  pub sha_finish : Sha → Option Bytes  -- mbedtls_sha256_finish

-- `err::fatal` reports its fault and never returns.
pub data Fatal {ℓ} (A : Type ℓ) : Type ℓ where
  returns : A → Fatal A
  halts : Fault → Fatal A

infixl 5 ◌>>=◌ ◌>>◌
abbrev pub ◌>>=◌ {ℓ κ} : {A : Type ℓ} {B : Type κ} → Fatal A → (A → Fatal B) → Fatal B
returns a >>= f = f a
halts e >>= f = halts e

abbrev pub ◌>>◌ {ℓ κ} : {A : Type ℓ} {B : Type κ} → Fatal A → Fatal B → Fatal B
m >> k = m >>= λ _. k

-- `if (ret != 0) fatal(CONFIG, MESH, sub, ...)`
abbrev pub must {ℓ} : {A : Type ℓ} → ℕ → Option A → Fatal A
must sub none = halts (fault ErrorTypeDigit.config ModuleDigit.mesh sub)
must sub (some a) = returns a

-- "lattice_ecdh", "lattice_keygen" and "lattice-lmk".
abbrev pub pers_ecdh : Bytes
pers_ecdh = 108 ∷ 97 ∷ 116 ∷ 116 ∷ 105 ∷ 99 ∷ 101 ∷ 95 ∷ 101 ∷ 99 ∷ 100 ∷ 104 ∷ []

abbrev pub pers_keygen : Bytes
pers_keygen = 108 ∷ 97 ∷ 116 ∷ 116 ∷ 105 ∷ 99 ∷ 101 ∷ 95 ∷ 107 ∷ 101 ∷ 121 ∷ 103 ∷ 101 ∷ 110 ∷ []

abbrev pub lmk_label : Bytes
lmk_label = 108 ∷ 97 ∷ 116 ∷ 116 ∷ 105 ∷ 99 ∷ 101 ∷ 45 ∷ 108 ∷ 109 ∷ 107 ∷ []

-- sharedSecret, of 32 bytes that start at zero.
abbrev pub in_buffer : Bytes → Bytes
in_buffer secret = take 32 (secret ++ replicate 32 0)

module _ {Mpi Sha : Type 0} (lib : Mbedtls Mpi Sha) where
  -- The part under "KDF".
  unfoldable pub kdf : Bytes → Fatal Bytes
  kdf secret = do
    s₀ ← must 16 lib.sha_starts
    s₁ ← must 17 (lib.sha_update s₀ secret)
    s₂ ← must 18 (lib.sha_update s₁ lmk_label)
    digest ← must 19 (lib.sha_finish s₂)
    returns (take 16 digest)

  -- The shared secret, from the own private key and the peer's public key.
  unfoldable pub shared_secret : Bytes → Bytes → Fatal Bytes
  shared_secret own_private peer_public = do
    must 10 (lib.seed pers_ecdh)
    must 11 lib.setup
    d ← must 12 (lib.read_binary own_private)
    x ← must 13 (lib.read_binary peer_public)
    z ← must 14 (lib.lset 1)
    secret ← must 15 (lib.calc_secret d x z)
    returns (in_buffer secret)

  unfoldable pub derive_peer_lmk : Bytes → Bytes → Fatal Bytes
  derive_peer_lmk own_private peer_public = do
    secret ← shared_secret own_private peer_public
    kdf secret

  -- The generator: devicePrivateKey and devicePublicKey.
  unfoldable pub generate_keypair : ℕ → Fatal (Bytes × Bytes)
  generate_keypair random = do
    must 1 (lib.seed pers_keygen)
    must 2 lib.group_load
    (d, x) ← must 3 (lib.gen_public random)
    returns (lib.write_binary d, lib.write_binary x)
