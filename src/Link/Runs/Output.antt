-- ===== src/Link/Runs/Output.antt =====
-- The reassembly of a run's output from chunks that are replayed and overlap.
use asgard.Prelude.{
  subst, ℕ, ◌≤◌, ◌<◌, ◌+◌, ◌-◌, ◌≡◌, refl, sym, ◌∙◌, ap, true, false, [], ◌∷◌, ◌++◌, append_assoc,
  Text, none, some, length, length-append, leb, ltb, arith, Bool-cases, inl, inr,
}
use asgard.Link.{uint64, RunOutputChunk}
use asgard.Link.Runs.{Run, output_gap, drop, add_chunk}

-- `part` stands in `whole` from the byte `offset` on.
pub record IsPart (whole : Text) (offset : ℕ) (part : Text) : Type 0 where
  pub before : Text
  pub after : Text
  pub reads : whole ≡ before ++ (part ++ after)
  pub starts : length before ≡ offset

-- `start` is the beginning of `whole`.
abbrev pub Starts : Text → Text → Type 0
Starts start whole = (rest : Text) × (whole ≡ start ++ rest)

tail_of : {b c : ℕ} {s t : Text} → b ∷ s ≡ c ∷ t → s ≡ t
tail_of e = cc

head_of : {b c : ℕ} {s t : Text} → b ∷ s ≡ c ∷ t → b ≡ c
head_of e = cc

drop-append : (p s : Text) → drop (length p) (p ++ s) ≡ s
unfolding drop
drop-append [] s = refl
drop-append (b ∷ p) s = drop-append p s

-- Of two beginnings of a text the shorter one begins the longer one.
begins :
    (p q s t : Text)
    → p ++ s ≡ q ++ t
    → length p ≤ length q
    → (m : Text) × (q ≡ p ++ m) × (s ≡ m ++ t)
begins [] q s t e l = (q, refl, e)
begins (b ∷ p) [] s t e l = absurd (ground arith)
begins (b ∷ p) (c ∷ q) s t e l =
    let (m, f, g) = begins p q s t (tail_of e) (omega arith) in (m, (ground (arith, head_of e)), g)

-- What a chunk adds to the output where it reaches beyond it.
joined :
    (whole out before chunk after rest : Text)
    → whole ≡ before ++ (chunk ++ after)
    → whole ≡ out ++ rest
    → length before ≤ length out
    → length out ≤ length before + length chunk
    → out ++ drop (length out - length before) chunk ≡ before ++ chunk
joined whole out before chunk after rest e f low high =
    let (m, g, h) = begins before out (chunk ++ after) rest (sym e ∙ f) low in
    let n = ap length g ∙ length-append before m in
    let (k, i, j) = begins m chunk rest after (sym h) (omega arith) in
    let skip : length out - length before ≡ length m = omega arith in
    rw skip (
      ap (λ (d : Text). out ++ drop (length m) d) i
      ∙ (ap (λ (t : Text). out ++ t) (drop-append m k)
          ∙ (ap (λ (t : Text). t ++ k) g
              ∙ (append_assoc before m k ∙ ap (λ (t : Text). before ++ t) (sym i)))))

-- A chunk of a run's output, whatever part of it: if the output so far is a beginning of the whole output
-- and the chunk ends within 64 bits, then a chunk that starts beyond the output so far is reported as a gap
-- and changes nothing, and any other chunk leaves a beginning of the whole output that reaches to the end of
-- the chunk, or as far as before if that is further.
pub add_chunk-Starts :
    (whole : Text) (c : RunOutputChunk) (r : Run)
    → Starts r.output whole
    → IsPart whole c.offset c.payload
    → c.offset + length c.payload < 18446744073709551616
    → let (err, after) = add_chunk c r in
      (length r.output < c.offset
        → (err ≡ some (output_gap c.offset (length r.output))) × (after ≡ r))
      × (c.offset ≤ length r.output
          → (err ≡ none)
            × Starts after.output whole
            × (length r.output ≤ length after.output)
            × (c.offset + length c.payload ≤ length after.output))
unfolding add_chunk uint64
add_chunk-Starts whole c r (rest, f) part small = (gap, fits)
  where
    gap :
        length r.output < c.offset
        → ((add_chunk c r).0 ≡ some (output_gap c.offset (length r.output)))
          × ((add_chunk c r).1 ≡ r)
    gap far =
        let t : ltb (length r.output) c.offset ≡ true = ground arith in
        (rw (t, add_chunk) refl, rw (t, add_chunk) refl)

    inside : uint64 (c.offset + length c.payload) ≡ c.offset + length c.payload
    inside = omega arith

    fits :
        c.offset ≤ length r.output
        → ((add_chunk c r).0 ≡ none)
          × Starts (add_chunk c r).1.output whole
          × (length r.output ≤ length (add_chunk c r).1.output)
          × (c.offset + length c.payload ≤ length (add_chunk c r).1.output)
    fits near =
        let t : ltb (length r.output) c.offset ≡ false = ground arith in
        elim (Bool-cases (leb (uint64 (c.offset + length c.payload)) (length r.output))) [
          | inl old ↦ rw (t, old, add_chunk) (refl, (rest, f), omega arith, ground arith)
          | inr new ↦
              let e =
                joined whole r.output part.before c.payload part.after rest part.reads f
                  (omega (arith, part.starts)) (ground (arith, part.starts)) in
              let d : r.output ++ drop (length r.output - c.offset) c.payload
                  ≡ part.before ++ c.payload =
                subst
                  (λ (n : ℕ).
                    r.output ++ drop (length r.output - n) c.payload ≡ part.before ++ c.payload)
                  part.starts e in
              let size = ap length d ∙ length-append part.before c.payload in
              rw (t, new, add_chunk)
                (
                  refl,
                  (
                    part.after,
                    part.reads
                        ∙ (sym (append_assoc part.before c.payload part.after)
                            ∙ ap (λ (x : Text). x ++ part.after) (sym d)),
                  ),
                  ground (arith, size, part.starts),
                  omega (arith, size, part.starts),
                )
        ]
