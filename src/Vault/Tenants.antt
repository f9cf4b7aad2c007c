-- ===== src/Vault/Tenants.antt =====
-- The ledgers of different tenants.
use soc2_sentinel.Base.{
  String, ◌<>◌, ◌≡◌, ◌≢◌, sym, ap, ◌∙◌, str_eq, str_eq_iff, Bool-cases, Option, arith, inl, inr,
}
use text.Mathlib.TextLemmas.{append_cancel_left, append_cancel_right}
use text.Mathlib.Text.{starts_with}
use text.Mathlib.TextPositions.{starts_with-append}
use soc2_sentinel.Python.{ok}
use soc2_sentinel.Vault.{
  EvidenceBlock, Codec, World, Store, chain_file, parse_lines, read_chain, append_line, seal_run,
}
use soc2_sentinel.Python.{or_text}
use soc2_sentinel.Vault.Sealed.{seal_run-parts}

default-ne-tenants : (s : String) → "vault/evidence_chain.jsonl" ≢ "tenants/" <> s
default-ne-tenants s h =
    cc (ap (λ path. starts_with path "tenants/") h ∙ starts_with-append "tenants/" s)

chain_file_injective : (t u : String) → chain_file t ≡ chain_file u → t ≡ u
unfolding chain_file
chain_file_injective t u h =
    let file : String = "/vault/evidence_chain.jsonl" in
    let below = λ (x : String). "tenants/" <> (x <> file) in
    let same : below t ≡ below u → t ≡ u =
      λ e. append_cancel_right t u file (append_cancel_left "tenants/" (t <> file) (u <> file) e) in
    elim (Bool-cases (str_eq t "default")) [
      | inl a ↦ elim (Bool-cases (str_eq u "default")) [
        | inl b ↦ (str_eq_iff t "default").0 a ∙ sym ((str_eq_iff u "default").0 b)
        | inr b ↦ absurd (default-ne-tenants (u <> file) (ground (arith, a, b, h)))
      ]
      | inr a ↦ elim (Bool-cases (str_eq u "default")) [
        | inl b ↦ absurd (default-ne-tenants (t <> file) (ground (arith, a, b, h)))
        | inr b ↦ same (ground (arith, a, b, h))
      ]
    ]

module _ {Float : Type 0} (sha256_hex : String → String) (C : Codec Float) where
  -- Sealing a run for one tenant leaves the ledger that is read for any other tenant as it was.
  pub seal_run-read_chain_other :
      (world : World) (store store' : Store) (date : String)
      (tenant_id other signatory : Option String) (block : EvidenceBlock Float)
      → or_text other world.current_tenant ≢ or_text tenant_id world.current_tenant
      → seal_run sha256_hex C world store date tenant_id signatory ≡ ok (block, store')
      → read_chain C world store' other ≡ read_chain C world store other
  unfolding read_chain append_line
  seal_run-read_chain_other world store store' date tenant_id other signatory block differ h =
      let (root, count, e, new, stored) =
        seal_run-parts sha256_hex C world store store' date tenant_id signatory block h in
      let path = chain_file (or_text tenant_id world.current_tenant) in
      let theirs = chain_file (or_text other world.current_tenant) in
      let apart : theirs ≢ path = λ same. differ (
        chain_file_injective (or_text other world.current_tenant)
          (or_text tenant_id world.current_tenant) same) in
      let kept : append_line store path (C.dumps block) theirs ≡ store theirs =
        ground (arith, str_eq_iff theirs path, apart) in
      ap (λ s. parse_lines C (s theirs)) stored ∙ ap (parse_lines C) kept
