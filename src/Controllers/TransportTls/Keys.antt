-- ===== src/Controllers/TransportTls/Keys.antt =====
-- The keys of a transport secret: which node's they are.
use opensearch_operator.Common.{
  ◌≡◌, ◌≢◌, ◌⊎◌, inl, inr, refl, false, String, ◌<>◌, ◌=?◌, eq_iff, some, arith, Bool-cases,
}
use opensearch_operator.Common.Text.{suffix_split}
use opensearch_operator.Pki.{Goca, Bytes}
use opensearch_operator.Controllers.State.{write_map}
use opensearch_operator.Controllers.TransportTls.Secrets.{issued_entries}
use Prim.Native.String.{count}

-- The keys of a node that gets a certificate.
abbrev pub IsKeyOf : String → String → Type 0
IsKeyOf name k = (k ≡ name <> ".crt") ⊎ ((k ≡ name <> ".key") ⊎ (k ≡ name <> ".csr"))

-- Endings of one length, if they differ, keep the keys apart.
pub apart :
    (s t : String)
    → count s ≡ count t
    → (s =? t) ≡ false
    → (a b : String) → (a <> s =? b <> t) ≡ false
apart s t e other a b = elim (Bool-cases (a <> s =? b <> t)) [
  | inr differ ↦ differ
  | inl yes' ↦
      let (_, same) = suffix_split a b s t e ((eq_iff (a <> s) (b <> t)).0 yes') in
      let equal = (eq_iff s t).1 same in absurd cc
]

-- A key with a stem and an ending of four characters is a node's only if the stem is its name.
pub IsKeyOf-stem :
    (name stem ending : String) → count ending ≡ 4 → IsKeyOf name (stem <> ending) → stem ≡ name
IsKeyOf-stem name stem ending e (inl same) = (suffix_split stem name ending ".crt" e same).0
IsKeyOf-stem name stem ending e (inr (inl same)) = (suffix_split stem name ending ".key" e same).0
IsKeyOf-stem name stem ending e (inr (inr same)) = (suffix_split stem name ending ".csr" e same).0

module _ (goca : Goca) where
  -- The three entries of a name are those of the certificate.
  abbrev pub HasIssued : (String → Bytes) → String → goca.Issued → Type 0
  HasIssued m n c =
      (m (n <> ".crt") ≡ some (goca.certificate c))
      × (m (n <> ".key") ≡ some (goca.private_key c))
      × (m (n <> ".csr") ≡ some (goca.csr c))

  -- They are those of before.
  abbrev pub SameEntries : (m m' : String → Bytes) → String → Type 0
  SameEntries m m' n =
      (m' (n <> ".crt") ≡ m (n <> ".crt"))
      × (m' (n <> ".key") ≡ m (n <> ".key"))
      × (m' (n <> ".csr") ≡ m (n <> ".csr"))

  -- A write of issued entries, key by key.
  module _ (name : String) (c : goca.Issued) (m : String → Bytes) where
    abbrev pub written : String → Bytes
    written = write_map (issued_entries goca name c) m

    pub written_old : (k : String) → ¬ IsKeyOf name k → written k ≡ m k
    written_old k out = ground (
      arith,
      eq_iff (name <> ".crt") k,
      eq_iff (name <> ".key") k,
      eq_iff (name <> ".csr") k,
      λ (e : k ≡ name <> ".crt"). out (inl e),
      λ (e : k ≡ name <> ".key"). out (inr (inl e)),
      λ (e : k ≡ name <> ".csr"). out (inr (inr e)),
    )

    pub written_own : HasIssued written name c
    written_own = (
      rw
          (
            apart ".csr" ".crt" refl refl name name,
            apart ".key" ".crt" refl refl name name,
            (eq_iff (name <> ".crt") (name <> ".crt")).1 refl,
          )
          refl,
      rw
          (
            apart ".csr" ".key" refl refl name name,
            (eq_iff (name <> ".key") (name <> ".key")).1 refl,
          )
          refl,
      rw ((eq_iff (name <> ".csr") (name <> ".csr")).1 refl) refl,
    )

    pub written_other : (n : String) → n ≢ name → SameEntries m written n
    written_other n other = (
      written_old (n <> ".crt") (λ i. other (IsKeyOf-stem name n ".crt" refl i)),
      written_old (n <> ".key") (λ i. other (IsKeyOf-stem name n ".key" refl i)),
      written_old (n <> ".csr") (λ i. other (IsKeyOf-stem name n ".csr" refl i)),
    )
