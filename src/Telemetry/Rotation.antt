-- ===== src/Telemetry/Rotation.antt =====
-- The log of a `FileSink` over its files, and what moving them keeps of it.
use soc2_sentinel.Base.{
  ℕ, zero, suc, ◌-◌, ◌<◌, ◌≤◌, [], ◌++◌, none, some, ◌≡◌, refl, sym, ap, subst, ◌∙◌, ◌⊎◌, inl, inr,
  arith, Option-cases, ◌==◌,
}
use soc2_sentinel.Base.{if◌then◌else◌}
use mathlib.Core.List.{append-nil, append_assoc}
use soc2_sentinel.Telemetry.{Lines, Files, lines_of, move, shift_backups, append_lines}

-- The log, oldest first, from this backup on to the live file.
abbrev pub history : ℕ → Files → Lines
history zero files = lines_of (files 0)
history (suc i) files = lines_of (files (suc i)) ++ history i files

unfoldable pub rotated : ℕ → Files → Files
unfolding move shift_backups
rotated i files = move 0 1 (shift_backups i files)

-- The log up to a file depends on the files up to there.
history-agree : (n : ℕ) (f g : Files) → ((i : ℕ) → i ≤ n → f i ≡ g i) → history n f ≡ history n g
history-agree zero f g h = ap lines_of (h 0 (omega arith))
history-agree (suc n) f g h =
    rw (h (suc n) (omega arith), history-agree n f g (λ i l. h i (omega arith))) refl

module _ (source target : ℕ) (files : Files) where
  move-none : files source ≡ none → move source target files ≡ files
  unfolding move
  move-none h =
      ap
        (λ o. elim o [
          | none ↦ files
          | some lines ↦
              λ i. if i == target then some lines else if i == source then none else files i
        ])
        h

  move-target :
      (lines : Lines) → files source ≡ some lines → move source target files target ≡ some lines
  unfolding move
  move-target lines h = ground (arith, h)

  move-source : source < target → move source target files source ≡ none
  unfolding move
  move-source l = elim (Option-cases (files source)) [
    | inl e ↦ ground (arith, e)
    | inr (lines, e) ↦ ground (arith, e, l)
  ]

  move-other :
      (i : ℕ) → (i < source) ⊎ (target < i) → source < target → move source target files i ≡ files i
  unfolding move
  move-other i h l = elim (Option-cases (files source)) [
    | inl e ↦ ground (arith, e)
    | inr (lines, e) ↦ ground (arith, e, h, l)
  ]

-- After a move to the next file, the log below it is what the moved file held and what the files before
-- it hold.
history-moved :
    (i : ℕ) (files : Files) (lines : Lines)
    → files i ≡ some lines
    → lines ++ history i (move i (suc i) files) ≡ history i files
history-moved zero files lines h = rw (move-source zero 1 files (omega arith), h) (append-nil lines)
history-moved (suc i) files lines h =
    rw
      (
        move-source (suc i) (suc (suc i)) files (omega arith),
        h,
        history-agree i (move (suc i) (suc (suc i)) files) files
            (λ j l. move-other (suc i) (suc (suc i)) files j (inl (omega arith)) (omega arith)),
      )
      refl

-- What is lost is nothing, or the oldest backup.
abbrev pub IsKept : Lines → Lines → Lines → Type 0
IsKept oldest before after =
    (dropped : Lines) × (dropped ++ after ≡ before) × ((dropped ≡ []) ⊎ (dropped ≡ oldest))

move-IsKept :
    (i : ℕ) (files : Files)
    → IsKept
        (lines_of (files (suc i)))
        (history (suc i) files)
        (history (suc i) (move i (suc i) files))
move-IsKept i files = elim (Option-cases (files i)) [
  | inl h ↦ ([], ap (history (suc i)) (move-none i (suc i) files h), inl refl)
  | inr (lines, h) ↦ (
    lines_of (files (suc i)),
    rw (move-target i (suc i) files lines h)
        (ap (λ ls. lines_of (files (suc i)) ++ ls) (history-moved i files lines h)),
    inr refl,
  )
]

rotated-other : (i : ℕ) (files : Files) (j : ℕ) → suc i < j → rotated i files j ≡ files j
unfolding rotated shift_backups
rotated-other zero files j l = move-other 0 1 files j (inr (omega arith)) (omega arith)
rotated-other (suc i) files j l =
    rotated-other i (move (suc i) (suc (suc i)) files) j (omega arith)
    ∙ move-other (suc i) (suc (suc i)) files j (inr (omega arith)) (omega arith)

-- The moves after the first of a rotation.
rotated-next :
    (i : ℕ) (files : Files)
    → history (suc i) (rotated i (move (suc i) (suc (suc i)) files))
      ≡ history (suc i) (move (suc i) (suc (suc i)) files)
    → history (suc (suc i)) (rotated (suc i) files)
      ≡ history (suc (suc i)) (move (suc i) (suc (suc i)) files)
unfolding rotated shift_backups
rotated-next i files h =
    let moved = move (suc i) (suc (suc i)) files in
    ap (λ o. lines_of o ++ history (suc i) (rotated i moved))
      (rotated-other i moved (suc (suc i)) (omega arith))
    ∙ ap (λ ls. lines_of (moved (suc (suc i))) ++ ls) h

kept-all : (before after : Lines) → IsKept [] before after → after ≡ before
kept-all before after (dropped, h, inl e) = rw (sym h, e) refl
kept-all before after (dropped, h, inr e) = rw (sym h, e) refl

-- Where the oldest backup is not there, nothing is lost.
rotated-vacant :
    (i : ℕ) (files : Files)
    → files (suc i) ≡ none
    → history (suc i) (rotated i files) ≡ history (suc i) files
unfolding rotated shift_backups
rotated-vacant zero files h = kept-all _ _ (
    subst (λ o. IsKept (lines_of o) (history 1 files) (history 1 (move 0 1 files))) h
      (move-IsKept 0 files))
rotated-vacant (suc i) files h =
    rotated-next i files (
      rotated-vacant i (move (suc i) (suc (suc i)) files)
        (move-source (suc i) (suc (suc i)) files (omega arith)))
    ∙ kept-all _ _ (
        subst
          (λ o.
            IsKept (lines_of o) (history (suc (suc i)) files)
              (history (suc (suc i)) (move (suc i) (suc (suc i)) files)))
          h (move-IsKept (suc i) files))

rotated-IsKept :
    (i : ℕ) (files : Files)
    → IsKept (lines_of (files (suc i))) (history (suc i) files) (history (suc i) (rotated i files))
unfolding rotated shift_backups
rotated-IsKept zero files = move-IsKept zero files
rotated-IsKept (suc i) files =
    subst (IsKept (lines_of (files (suc (suc i)))) (history (suc (suc i)) files))
      (sym (
        rotated-next i files (
          rotated-vacant i (move (suc i) (suc (suc i)) files)
            (move-source (suc i) (suc (suc i)) files (omega arith)))))
      (move-IsKept (suc i) files)

pub rotated-backups :
    (b : ℕ) (files : Files)
    → 1 ≤ b
    → IsKept (lines_of (files b)) (history b files) (history b (rotated (b - 1) files))
rotated-backups zero files h = absurd (omega arith)
rotated-backups (suc i) files h =
    subst
      (λ k.
        IsKept (lines_of (files (suc i))) (history (suc i) files)
          (history (suc i) (rotated k files)))
      {x = i} {y = suc i - 1} (omega arith) (rotated-IsKept i files)

pub history-append_lines :
    (n : ℕ) (lines : Lines) (files : Files)
    → history n (append_lines lines files) ≡ history n files ++ lines
unfolding append_lines
history-append_lines zero lines files = refl
history-append_lines (suc n) lines files =
    ap (λ ls. lines_of (append_lines lines files (suc n)) ++ ls)
      (history-append_lines n lines files)
    ∙ ap (λ o. lines_of o ++ (history n files ++ lines)) other
    ∙ (sym (append_assoc (lines_of (files (suc n))) (history n files) lines))
  where
    other : append_lines lines files (suc n) ≡ files (suc n)
    other = ground arith
