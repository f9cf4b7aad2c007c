-- ===== src/Vault/Tests.antt =====
-- The theorems about `sentinel/vault.py` on small ledgers and trees, with a digest of one character.
use Prim.Native.String.{count as size}
use soc2_sentinel.Base.{
  String, ◌≡◌, refl, sym, subst, ◌↔◌, ◌⊎◌, Bool, true, false, List, [], ◌∷◌, ◌++◌, str_eq,
  if◌then◌else◌, Option, none, some, show_nat,
}
use soc2_sentinel.Base.Int.{show_int}
use soc2_sentinel.Python.{ok}
use soc2_sentinel.Vault.{
  zeros, EvidenceBlock, Codec, IsReadBack, World, Store, Node, file, directory, no_more, entry,
  child, report_file, collector_leaves, compute_evidence_merkle_root, merkle_root, sorted,
  build_tree, build_levels, next_level, calculate_hash, hash_payload, payload_of, new_block,
  last_hash, parse_lines, read_chain, chain_file, append_line, seal_root, seal_run, disk_root_of,
  report_on, verify_chain, empty_chain, root_of,
}
use soc2_sentinel.Vault.Rounds.{Collision, build_tree-step}
use soc2_sentinel.Vault.Binding.{TreesCollide, build_tree-binds}
use soc2_sentinel.Vault.Linked.{IsLinked}
use soc2_sentinel.Base.{◌≢◌}
use soc2_sentinel.Vault.Tampered.{verify_chain_removed, verify_chain_altered}
use soc2_sentinel.Python.{or_text}
use soc2_sentinel.Vault.Sealed.{
  IsVerified, verify_chain-valid_iff, seal_run-read_chain, seal_run-IsVerified,
}

abbrev bit : Bool → String
bit true = "1"
bit false = "0"

abbrev digest : String → String
digest s = bit (str_eq s "ab")

size-bit : (b : Bool) → size (bit b) ≡ 1
size-bit true = refl
size-bit false = refl

size-digest : (s : String) → size (digest s) ≡ 1
size-digest s = size-bit (str_eq s "ab")

build_tree-step_example :
    build_tree digest ("a" ∷ "b" ∷ "c" ∷ []) ≡ build_tree digest ("1" ∷ "0" ∷ [])
unfolding next_level
build_tree-step_example = build_tree-step digest "a" "b" ("c" ∷ [])

abbrev leaves : List String
leaves = "a" ∷ "b" ∷ "c" ∷ "d" ∷ []

abbrev other_leaves : List String
other_leaves = "a" ∷ "b" ∷ "e" ∷ "f" ∷ []

-- The digests of `cd` and `ef` are the same.
same_root : build_tree digest leaves ≡ build_tree digest other_leaves
unfolding build_tree build_levels next_level
same_root = refl

build_tree-binds_example : (leaves ≡ other_leaves) ⊎ TreesCollide digest leaves other_leaves
build_tree-binds_example =
    build_tree-binds digest 1 size-digest leaves other_leaves (refl, (refl, (refl, (refl, tt))))
      (refl, (refl, (refl, (refl, tt)))) refl same_root

-- One collector's report, on disk for every date.
abbrev run : Option Node
run = some (directory (entry "iam" (directory (entry "report.json" (file "mfa") no_more)) no_more))

abbrev world : World
world = record {
  at = λ path. run;
  in_evidence = λ date. run;
  name = λ path. path;
  now = "2024-01-01T00:00:00+00:00";
  current_tenant = "default";
  current_user = "alice";
}

abbrev Block : Type 0
Block = EvidenceBlock Unit

abbrev first : Block
first = new_block digest world [] "default" "alice" "2024-01-01" "0" 1

abbrev second : Block
second = new_block digest world (first ∷ []) "default" "alice" "2024-01-01" "0" 1

abbrev altered : Block
altered = new_block digest world [] "default" "mallory" "2024-01-01" "0" 1

abbrev codec : Codec Unit
codec = record { dumps = λ b. "line"; strip = λ s. s; loads = λ s. ok first }

first-IsReadBack : IsReadBack codec first
first-IsReadBack = record { strip-dumps = refl; dumps-filled = refl; loads-dumps = refl }

abbrev fresh : Store
fresh = λ path. []

abbrev sealed : Store
sealed = append_line fresh (chain_file "default") "line"

first-sealed : seal_run digest codec world fresh "2024-01-01" none none ≡ ok (first, sealed)
unfolding seal_run seal_root compute_evidence_merkle_root collector_leaves report_file child root_of
    merkle_root sorted build_tree build_levels parse_lines
first-sealed = refl

fresh-IsVerified : IsVerified digest codec world fresh none
unfolding verify_chain read_chain parse_lines report_on
fresh-IsVerified = (empty_chain, refl, refl)

verify_chain-valid_iff_example :
    IsVerified digest codec world fresh none
    ↔ IsLinked digest world 0 zeros (read_chain codec world fresh none)
verify_chain-valid_iff_example = verify_chain-valid_iff digest codec world fresh none

seal_run-read_chain_example :
    read_chain codec world sealed none ≡ read_chain codec world fresh none ++ (first ∷ [])
seal_run-read_chain_example =
    seal_run-read_chain digest codec world fresh sealed "2024-01-01" none none first
      first-IsReadBack first-sealed

seal_run-IsVerified_example : IsVerified digest codec world sealed none
seal_run-IsVerified_example =
    seal_run-IsVerified digest codec world fresh sealed "2024-01-01" none none first
      first-IsReadBack fresh-IsVerified refl first-sealed

sealed-IsVerified : IsVerified digest codec world sealed none
sealed-IsVerified =
    seal_run-IsVerified digest codec world fresh sealed "2024-01-01" none none first
      first-IsReadBack fresh-IsVerified refl first-sealed

sealed_cut : read_chain codec world sealed none ≡ read_chain codec world fresh none ++ (first ∷ [])
sealed_cut =
    seal_run-read_chain digest codec world fresh sealed "2024-01-01" none none first
      first-IsReadBack first-sealed

two-IsLinked : IsLinked digest world 0 zeros (first ∷ second ∷ [])
unfolding new_block disk_root_of compute_evidence_merkle_root collector_leaves report_file child
    root_of merkle_root sorted build_tree build_levels last_hash calculate_hash hash_payload
    show_int show_nat
two-IsLinked = (
  (refl, refl, refl),
  ((some "0", 1), refl, refl),
  ((refl, refl, refl), ((some "0", 1), refl, refl), tt),
)

altered-IsLinked : IsLinked digest world 0 zeros (altered ∷ second ∷ [])
unfolding new_block disk_root_of compute_evidence_merkle_root collector_leaves report_file child
    root_of merkle_root sorted build_tree build_levels last_hash calculate_hash hash_payload
    show_int show_nat
altered-IsLinked = (
  (refl, refl, refl),
  ((some "0", 1), refl, refl),
  ((refl, refl, refl), ((some "0", 1), refl, refl), tt),
)

-- The two lines of a ledger, and a codec that reads back the blocks.
abbrev reading : Codec Unit
reading = record {
  dumps = λ b. "line";
  strip = λ s. s;
  loads = λ s. if str_eq s "1" then ok first else if str_eq s "2" then ok second else ok altered;
}

abbrev with_lines : List String → Store
with_lines lines = λ path. lines

two_read : read_chain reading world (with_lines ("1" ∷ "2" ∷ [])) none ≡ first ∷ second ∷ []
unfolding read_chain parse_lines
two_read = refl

altered_read : read_chain reading world (with_lines ("3" ∷ "2" ∷ [])) none ≡ altered ∷ second ∷ []
unfolding read_chain parse_lines
altered_read = refl

one_read : read_chain reading world (with_lines ("2" ∷ [])) none ≡ second ∷ []
unfolding read_chain parse_lines
one_read = refl

two-IsVerified : IsVerified digest reading world (with_lines ("1" ∷ "2" ∷ [])) none
two-IsVerified =
    (verify_chain-valid_iff digest reading world (with_lines ("1" ∷ "2" ∷ [])) none).1
      (subst (IsLinked digest world 0 zeros) (sym two_read) two-IsLinked)

altered-IsVerified : IsVerified digest reading world (with_lines ("3" ∷ "2" ∷ [])) none
altered-IsVerified =
    (verify_chain-valid_iff digest reading world (with_lines ("3" ∷ "2" ∷ [])) none).1
      (subst (IsLinked digest world 0 zeros) (sym altered_read) altered-IsLinked)

verify_chain_removed_example : ¬ IsVerified digest reading world (with_lines ("2" ∷ [])) none
verify_chain_removed_example =
    verify_chain_removed digest reading world (with_lines ("1" ∷ "2" ∷ [])) (with_lines ("2" ∷ []))
      none [] [] [] first second two-IsVerified two_read one_read

verify_chain_altered_example : (payload_of altered ≡ payload_of first) ⊎ Collision digest
verify_chain_altered_example =
    verify_chain_altered digest reading world (with_lines ("1" ∷ "2" ∷ []))
      (with_lines ("3" ∷ "2" ∷ [])) none [] [] first altered second two-IsVerified
      altered-IsVerified two_read altered_read

acme-differs : or_text (some "acme") world.current_tenant ≢ or_text none world.current_tenant
acme-differs h = cc
