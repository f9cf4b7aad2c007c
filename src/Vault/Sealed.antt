-- ===== src/Vault/Sealed.antt =====
-- What `seal_run` and `verify_chain` do together.
use soc2_sentinel.Base.{
  ℕ, ◌+◌, String, ◌≡◌, refl, sym, ap, ◌∙◌, subst, ◌↔◌, true, str_eq_iff, List, [], ◌∷◌, ◌++◌,
  length, Option, none, some, ◌==◌, arith, inl, inr, Bool-cases, if◌then◌else◌,
}
use soc2_sentinel.Base.Int.{pos}
use soc2_sentinel.Python.{ok, raise, value_error, Py-cases}
use soc2_sentinel.Vault.{
  zeros, EvidenceBlock, Codec, IsReadBack, World, Store, chain_file, parse_lines, read_chain,
  last_hash, append_line, located, compute_evidence_merkle_root, new_block, seal_root, seal_run,
  disk_root_of, check_blocks, report_on, verify_chain, Report, is_valid, empty_chain, checked,
}
use soc2_sentinel.Vault.Linked.{IsWhole, IsKept, IsLinked, check_blocks-nil, check_blocks_linked}
use soc2_sentinel.Python.{or_text}
use soc2_sentinel.Vault.Splits.{IsLinked-append}

ok_injective : {A : Type 0} {p q : A} → ok p ≡ ok q → p ≡ q
ok_injective h = cc

module _ {Float : Type 0} (C : Codec Float) where
  parse_lines-append :
      (lines : List String) (block : EvidenceBlock Float) (L : IsReadBack C block)
      → parse_lines C (lines ++ (C.dumps block ∷ [])) ≡ parse_lines C lines ++ (block ∷ [])
  unfolding parse_lines
  parse_lines-append [] block L = ground (arith, L.strip-dumps, L.dumps-filled, L.loads-dumps)
  parse_lines-append (line ∷ lines) block L = ground (arith, parse_lines-append lines block L)

module _ {Float : Type 0} (sha256_hex : String → String) (C : Codec Float) where
  -- `verify_chain` returns a report, and the report is valid.
  abbrev pub IsVerified : World → Store → Option String → Type 0
  IsVerified world store tenant_id =
      (report : Report) × (verify_chain sha256_hex C world store tenant_id ≡ ok report)
      × (is_valid report ≡ true)

  report_on-valid :
      (world : World) (chain : List (EvidenceBlock Float)) (report : Report)
      → report_on sha256_hex world chain ≡ ok report
      → is_valid report ≡ true
      → check_blocks sha256_hex world 0 zeros chain ≡ ok []
  unfolding report_on check_blocks
  report_on-valid world [] report h v = refl
  report_on-valid world (block ∷ chain) report h v =
      elim (Py-cases (check_blocks sha256_hex world 0 zeros (block ∷ chain))) [
        | inl ([], e) ↦ e
        | inl (error ∷ errors, e) ↦ absurd (ground (arith, e, h, v))
        | inr (x, e) ↦ absurd (ground (arith, e, h))
      ]

  report_on_linked :
      (world : World) (chain : List (EvidenceBlock Float))
      → check_blocks sha256_hex world 0 zeros chain ≡ ok []
      → (report : Report) × (report_on sha256_hex world chain ≡ ok report)
        × (is_valid report ≡ true)
  unfolding report_on
  report_on_linked world [] h = (empty_chain, refl, refl)
  report_on_linked world (block ∷ chain) h = (
    checked true (length (block ∷ chain)) (last_hash (block ∷ chain) zeros) [],
    ground (arith, h),
    refl,
  )

  -- `verify_chain` returns a valid report if and only if each block that is read has its position's
  -- index, the hash of the block before it (64 zeros for the first), a hash that is that of its own
  -- fields, and evidence on disk for its date that can be read and has no Merkle root other than the
  -- recorded one.
  pub verify_chain-valid_iff :
      (world : World) (store : Store) (tenant_id : Option String)
      → IsVerified world store tenant_id
        ↔ IsLinked sha256_hex world 0 zeros (read_chain C world store tenant_id)
  unfolding verify_chain
  verify_chain-valid_iff world store tenant_id =
      let chain = read_chain C world store tenant_id in
      (
        λ (report, e, v).
            check_blocks-nil sha256_hex world 0 zeros chain
              (report_on-valid world chain report e v),
        λ linked.
            report_on_linked world chain
              (check_blocks_linked sha256_hex world 0 zeros chain linked),
      )

  seal_root-parts :
      (world : World) (store store' : Store) (tenant signer date root : String) (count : ℕ)
      (block : EvidenceBlock Float)
      → seal_root sha256_hex C world store tenant signer date (some root, count)
        ≡ ok (block, store')
      → let chain = parse_lines C (store (chain_file tenant)) in
        (block ≡ new_block sha256_hex world chain tenant signer date root count)
        × (store' ≡ append_line store (chain_file tenant) (C.dumps block))
  unfolding seal_root
  seal_root-parts world store store' tenant signer date root count block h =
      let chain = parse_lines C (store (chain_file tenant)) in
      let new = new_block sha256_hex world chain tenant signer date root count in
      let path = chain_file tenant in
      elim (Bool-cases (count == 0)) [
        | inl z ↦ absurd (ground (arith, z, h))
        | inr z ↦
            let sealed : EvidenceBlock Float × Store =
              (new, append_line store path (C.dumps new)) in
            let result : EvidenceBlock Float × Store = (block, store') in
            let k =
              ok_injective
                (subst (λ b. (if b then raise value_error else ok sealed) ≡ ok result) z h) in
            let same : new ≡ block = ap (λ p. p.0) k in
            let stored : append_line store path (C.dumps new) ≡ store' = ap (λ p. p.1) k in
            (sym same, sym stored ∙ ap (λ b. append_line store path (C.dumps b)) same)
      ]

  -- What a run that was sealed consists of.
  pub seal_run-parts :
      (world : World) (store store' : Store) (date : String) (tenant_id signatory : Option String)
      (block : EvidenceBlock Float)
      → seal_run sha256_hex C world store date tenant_id signatory ≡ ok (block, store')
      → let tenant = or_text tenant_id world.current_tenant in
        let chain = parse_lines C (store (chain_file tenant)) in
        (root : String) × (count : ℕ) × (compute_evidence_merkle_root sha256_hex
            (located world date)
          ≡ ok (some root, count))
        × (block
            ≡ new_block sha256_hex world chain tenant
                (or_text signatory world.current_user)
                date
                root
                count)
        × (store' ≡ append_line store (chain_file tenant) (C.dumps block))
  unfolding seal_run
  seal_run-parts world store store' date tenant_id signatory block h =
      elim (Py-cases (compute_evidence_merkle_root sha256_hex (located world date))) [
        | inl ((none, count), e) ↦ absurd (ground (arith, e, h))
        | inl ((some root, count), e) ↦
            let tenant = or_text tenant_id world.current_tenant in
            let k : seal_root sha256_hex C world store tenant (or_text signatory world.current_user)
                  date (some root, count)
                ≡ ok (block, store') =
              cc in
            let (new, stored) =
              seal_root-parts world store store' tenant (or_text signatory world.current_user) date
                root count block k in
            (root, count, e, new, stored)
        | inr (x, e) ↦ absurd (ground (arith, e, h))
      ]

  -- If a run is sealed, the ledger that is read afterwards for the same tenant is the one before with
  -- the returned block at its end, provided that the block is read
  -- back from the line it is dumped to.
  pub seal_run-read_chain :
      (world : World) (store store' : Store) (date : String) (tenant_id signatory : Option String)
      (block : EvidenceBlock Float)
      → IsReadBack C block
      → seal_run sha256_hex C world store date tenant_id signatory ≡ ok (block, store')
      → read_chain C world store' tenant_id ≡ read_chain C world store tenant_id ++ (block ∷ [])
  unfolding read_chain append_line
  seal_run-read_chain world store store' date tenant_id signatory block L h =
      let (root, count, e, new, stored) =
        seal_run-parts world store store' date tenant_id signatory block h in
      let path = chain_file (or_text tenant_id world.current_tenant) in
      let at_path : append_line store path (C.dumps block) path
          ≡ store path ++ (C.dumps block ∷ []) =
        ground (arith, str_eq_iff path path) in
      ap (λ s. parse_lines C (s path)) stored
      ∙ ap (parse_lines C) at_path
      ∙ parse_lines-append C (store path) block L

  new_block-IsWhole :
      (world : World) (chain : List (EvidenceBlock Float)) (tenant signer date root : String)
      (count : ℕ)
      → IsWhole sha256_hex
          (0 + length chain)
          (last_hash chain zeros)
          (new_block sha256_hex world chain tenant signer date root count)
  unfolding new_block
  new_block-IsWhole world chain tenant signer date root count = (ap pos (omega arith), refl, refl)

  new_block-IsKept :
      (world : World) (chain : List (EvidenceBlock Float)) (tenant signer date root : String)
      (count : ℕ)
      → world.in_evidence (world.name date) ≡ located world date
      → compute_evidence_merkle_root sha256_hex (located world date) ≡ ok (some root, count)
      → IsKept sha256_hex world (new_block sha256_hex world chain tenant signer date root count)
  unfolding new_block disk_root_of
  new_block-IsKept world chain tenant signer date root count same e =
      ((some root, count), ap (compute_evidence_merkle_root sha256_hex) same ∙ e, refl)

  -- If a tenant's ledger verifies and a run is sealed for the tenant whose directory is the one of
  -- its name in the evidence directory, the ledger verifies afterwards, provided that the block
  -- is read back from the line it is dumped to.
  pub seal_run-IsVerified :
      (world : World) (store store' : Store) (date : String) (tenant_id signatory : Option String)
      (block : EvidenceBlock Float)
      → IsReadBack C block
      → IsVerified world store tenant_id
      → world.in_evidence (world.name date) ≡ located world date
      → seal_run sha256_hex C world store date tenant_id signatory ≡ ok (block, store')
      → IsVerified world store' tenant_id
  unfolding read_chain
  seal_run-IsVerified world store store' date tenant_id signatory block L verified same h =
      let (root, count, e, new, stored) =
        seal_run-parts world store store' date tenant_id signatory block h in
      let tenant = or_text tenant_id world.current_tenant in
      let signer = or_text signatory world.current_user in
      let chain = read_chain C world store tenant_id in
      let linked = (verify_chain-valid_iff world store tenant_id).0 verified in
      let extended =
        IsLinked-append sha256_hex world 0 zeros chain block linked
          (subst (IsWhole sha256_hex (0 + length chain) (last_hash chain zeros)) (sym new)
            (new_block-IsWhole world chain tenant signer date root count))
          (subst (IsKept sha256_hex world) (sym new)
            (new_block-IsKept world chain tenant signer date root count same e)) in
      (verify_chain-valid_iff world store' tenant_id).1 (
        subst (IsLinked sha256_hex world 0 zeros)
          (sym (seal_run-read_chain world store store' date tenant_id signatory block L h))
          extended)
