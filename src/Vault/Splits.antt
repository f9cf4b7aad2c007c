-- ===== src/Vault/Splits.antt =====
-- Ledgers taken apart and put together: appended, cut short, with blocks removed or altered.
use soc2_sentinel.Base.{
  ℕ, suc, ◌+◌, String, ◌≡◌, sym, ◌∙◌, subst, ◌⊎◌, List, [], ◌∷◌, ◌++◌, length, arith,
}
use soc2_sentinel.Vault.{zeros, EvidenceBlock, World, last_hash, payload_of, calculate_hash}
use soc2_sentinel.Vault.Rounds.{Collision, digest-cases}
use soc2_sentinel.Vault.Linked.{IsWhole, IsKept, IsLinked}

module _ {Float : Type 0} (sha256_hex : String → String) (world : World) where
  pub IsLinked-append :
      (idx : ℕ) (previous : String) (chain : List (EvidenceBlock Float))
      (block : EvidenceBlock Float)
      → IsLinked sha256_hex world idx previous chain
      → IsWhole sha256_hex (idx + length chain) (last_hash chain previous) block
      → IsKept sha256_hex world block
      → IsLinked sha256_hex world idx previous (chain ++ (block ∷ []))
  unfolding last_hash
  IsLinked-append idx previous [] block linked whole kept =
      let e : idx + 0 ≡ idx = omega arith in
      (subst (λ n. IsWhole sha256_hex n previous block) e whole, kept, tt)
  IsLinked-append idx previous (first ∷ chain) block (w, k, linked) whole kept =
      let e : idx + suc (length chain) ≡ suc idx + length chain = omega arith in
      (
        w,
        k,
        IsLinked-append (suc idx) first.block_hash chain block linked
            (subst (λ n. IsWhole sha256_hex n (last_hash chain first.block_hash) block) e whole)
            kept,
      )

  pub IsLinked-prefix :
      (idx : ℕ) (previous : String) (chain cut : List (EvidenceBlock Float))
      → IsLinked sha256_hex world idx previous (chain ++ cut)
      → IsLinked sha256_hex world idx previous chain
  IsLinked-prefix idx previous [] cut h = tt
  IsLinked-prefix idx previous (block ∷ chain) cut (w, k, h) =
      (w, k, IsLinked-prefix (suc idx) block.block_hash chain cut h)

  pub IsLinked-suffix :
      (idx : ℕ) (previous : String) (chain rest : List (EvidenceBlock Float))
      → IsLinked sha256_hex world idx previous (chain ++ rest)
      → IsLinked sha256_hex world (idx + length chain) (last_hash chain previous) rest
  unfolding last_hash
  IsLinked-suffix idx previous [] rest h =
      let e : idx ≡ idx + 0 = omega arith in
      subst (λ n. IsLinked sha256_hex world n previous rest) e h
  IsLinked-suffix idx previous (block ∷ chain) rest (w, k, h) =
      let e : suc idx + length chain ≡ idx + suc (length chain) = omega arith in
      subst (λ n. IsLinked sha256_hex world n (last_hash chain block.block_hash) rest) e
        (IsLinked-suffix (suc idx) block.block_hash chain rest h)

  -- From a ledger that is linked no blocks before a later one can be taken out: what is left is
  -- not linked.
  pub IsLinked-removed :
      (chain removed rest : List (EvidenceBlock Float)) (first next : EvidenceBlock Float)
      → IsLinked sha256_hex world 0 zeros (chain ++ ((first ∷ removed) ++ (next ∷ rest)))
      → ¬ IsLinked sha256_hex world 0 zeros (chain ++ (next ∷ rest))
  IsLinked-removed chain removed rest first next h k =
      let whole = IsLinked-suffix 0 zeros chain ((first ∷ removed) ++ (next ∷ rest)) h in
      let after =
        IsLinked-suffix (0 + length chain) (last_hash chain zeros) (first ∷ removed) (next ∷ rest)
          whole in
      let without = IsLinked-suffix 0 zeros chain (next ∷ rest) k in
      let i = after.0.0 in let j = without.0.0 in ground (arith, i, j)

  -- If a block that another follows is replaced and both ledgers are linked, the digested text of
  -- the two blocks is the same, or it gives a collision.
  pub IsLinked-altered :
      (chain rest : List (EvidenceBlock Float)) (block altered next : EvidenceBlock Float)
      → IsLinked sha256_hex world 0 zeros (chain ++ (block ∷ next ∷ rest))
      → IsLinked sha256_hex world 0 zeros (chain ++ (altered ∷ next ∷ rest))
      → (payload_of altered ≡ payload_of block) ⊎ Collision sha256_hex
  unfolding calculate_hash
  IsLinked-altered chain rest block altered next h k =
      let before = IsLinked-suffix 0 zeros chain (block ∷ next ∷ rest) h in
      let after = IsLinked-suffix 0 zeros chain (altered ∷ next ∷ rest) k in
      let same : block.block_hash ≡ altered.block_hash = sym before.2.0.1 ∙ after.2.0.1 in
      let digests : sha256_hex (payload_of altered) ≡ sha256_hex (payload_of block) =
        sym after.0.2 ∙ sym same ∙ before.0.2 in
      digest-cases sha256_hex (payload_of altered) (payload_of block) digests
