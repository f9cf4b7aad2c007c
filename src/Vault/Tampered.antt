-- ===== src/Vault/Tampered.antt =====
-- What `verify_chain` notices of a ledger that was tampered with, and what it does not.
use soc2_sentinel.Base.{◌≡◌, String, subst, ◌⊎◌, Option, List, ◌∷◌, ◌++◌}
use soc2_sentinel.Vault.{zeros, EvidenceBlock, Codec, World, Store, read_chain, payload_of}
use soc2_sentinel.Vault.Rounds.{Collision}
use soc2_sentinel.Vault.Linked.{IsLinked}
use soc2_sentinel.Vault.Splits.{IsLinked-prefix, IsLinked-removed, IsLinked-altered}
use soc2_sentinel.Vault.Sealed.{IsVerified, verify_chain-valid_iff}

module _ {Float : Type 0} (sha256_hex : String → String) (C : Codec Float) where
  -- The blocks that are read from a ledger that verifies are linked.
  IsLinked-as :
      (world : World) (store : Store) (tenant_id : Option String)
      (chain : List (EvidenceBlock Float))
      → IsVerified sha256_hex C world store tenant_id
      → read_chain C world store tenant_id ≡ chain
      → IsLinked sha256_hex world 0 zeros chain
  IsLinked-as world store tenant_id chain verified e =
      subst (IsLinked sha256_hex world 0 zeros) e
        ((verify_chain-valid_iff sha256_hex C world store tenant_id).0 verified)

  -- If a ledger verifies, another one that lacks some blocks of it before a later block that it still
  -- has does not verify.
  pub verify_chain_removed :
      (world : World) (store other : Store) (tenant_id : Option String)
      (chain removed rest : List (EvidenceBlock Float)) (first next : EvidenceBlock Float)
      → IsVerified sha256_hex C world store tenant_id
      → read_chain C world store tenant_id ≡ chain ++ ((first ∷ removed) ++ (next ∷ rest))
      → read_chain C world other tenant_id ≡ chain ++ (next ∷ rest)
      → ¬ IsVerified sha256_hex C world other tenant_id
  verify_chain_removed world store other tenant_id chain removed rest first next verified e d
        again =
      IsLinked-removed sha256_hex world chain removed rest first next
        (IsLinked-as world store tenant_id (chain ++ ((first ∷ removed) ++ (next ∷ rest))) verified
          e)
        (IsLinked-as world other tenant_id (chain ++ (next ∷ rest)) again d)

  -- If two ledgers verify that differ only in one block that is not the last, the text that is
  -- digested for that block is the same in both, or the digest function collides on two different
  -- texts.
  pub verify_chain_altered :
      (world : World) (store other : Store) (tenant_id : Option String)
      (chain rest : List (EvidenceBlock Float)) (block altered next : EvidenceBlock Float)
      → IsVerified sha256_hex C world store tenant_id
      → IsVerified sha256_hex C world other tenant_id
      → read_chain C world store tenant_id ≡ chain ++ (block ∷ next ∷ rest)
      → read_chain C world other tenant_id ≡ chain ++ (altered ∷ next ∷ rest)
      → (payload_of altered ≡ payload_of block) ⊎ Collision sha256_hex
  verify_chain_altered world store other tenant_id chain rest block altered next v w e d =
      IsLinked-altered sha256_hex world chain rest block altered next
        (IsLinked-as world store tenant_id (chain ++ (block ∷ next ∷ rest)) v e)
        (IsLinked-as world other tenant_id (chain ++ (altered ∷ next ∷ rest)) w d)

  -- A ledger from whose end lines have been cut off still verifies, if it did before they were: the
  -- blocks that are missing leave no trace in what is checked.
  pub verify_chain_cut :
      (world : World) (store cut : Store) (tenant_id : Option String)
      (lost : List (EvidenceBlock Float))
      → IsVerified sha256_hex C world store tenant_id
      → read_chain C world store tenant_id ≡ read_chain C world cut tenant_id ++ lost
      → IsVerified sha256_hex C world cut tenant_id
  verify_chain_cut world store cut tenant_id lost verified e =
      let linked = (verify_chain-valid_iff sha256_hex C world store tenant_id).0 verified in
      (verify_chain-valid_iff sha256_hex C world cut tenant_id).1 (
        IsLinked-prefix sha256_hex world 0 zeros (read_chain C world cut tenant_id) lost
          (subst (IsLinked sha256_hex world 0 zeros) e linked))
