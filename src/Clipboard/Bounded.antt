-- ===== src/Clipboard/Bounded.antt =====
-- What the bounds of daemon/internal/server/clipboard.go keep to.
use native.Mathlib.Nat.{mul-div-le}
use mathlib.Core.List.{append-nil}
use phonepad.Base.{
  Bool, Bool-cases, Bytes, List, [], ap, append_assoc, arith, false, if_case, inl, inr, length,
  length-append, ltb, negsuc, pos, refl, suc, sym, take, take-all, true, zero, ℕ, ℤ, ◌*◌, ◌++◌, ◌+◌,
  ◌/◌, ◌<◌, ◌↔◌, ◌∙◌, ◌∷◌, ◌≡◌, ◌≤◌, ◌⊎◌,
}
use phonepad.Clipboard.Ranges.{length-take}
use phonepad.Clipboard.Limits.{
  LimitedFileWriter, FileAnswer, encode, max_clipboard_pixels, valid_clipboard_dimensions,
  max_clipboard_image_bytes, new_writer, write,
}

-- Positive sides, and an area of at most 64 Mi pixels.
abbrev pub Fits : ℤ → ℤ → Type 0
Fits (pos w) (pos h) = (0 < w) × (0 < h) × (w * h ≤ max_clipboard_pixels)
Fits w h = ⊥

div_area : (n w h : ℕ) → 0 < h → (w ≤ n / h) ↔ (w * h ≤ n)
div_area n w h p = (λ k. grind (arith, mul-div-le n h), λ k. grind arith)

-- An image is accepted exactly if its sides are positive and its area, which is not computed and
-- could be too large for a machine word, is at most 64 Mi pixels.
pub valid_clipboard_dimensions_iff : (w h : ℤ) → (valid_clipboard_dimensions w h ≡ true) ↔ Fits w h
unfolding valid_clipboard_dimensions
valid_clipboard_dimensions_iff (pos zero) (pos h) = ground arith
valid_clipboard_dimensions_iff (pos (suc w)) (pos zero) = ground arith
valid_clipboard_dimensions_iff (pos (suc w)) (pos (suc h)) =
    ground (arith, div_area max_clipboard_pixels (suc w) (suc h) (omega arith))
valid_clipboard_dimensions_iff (pos w) (negsuc h) = ground arith
valid_clipboard_dimensions_iff (negsuc w) h = ground arith

abbrev pub concat : List Bytes → Bytes
concat [] = []
concat (part ∷ parts) = part ++ concat parts

-- io.Writer: a write takes at most what it is given, and reports an error if it takes less.
pub record IsIoWriter (file : Bytes → Bytes → FileAnswer) : Type 0 where
  pub at_most : (s b : Bytes) → (file s b).taken ≤ length b
  pub short : (s b : Bytes) → (file s b).taken < length b → (file s b).fails ≡ true

-- A write to the file reports an error.
abbrev pub Breaks : (Bytes → Bytes → FileAnswer) → Type 0
Breaks file = (s : Bytes) × (b : Bytes) × ((file s b).fails ≡ true)

-- Writing `b` after `s`, with what comes of it: all of it, or an error that has its reason.
record IsWritten (file : Bytes → Bytes → FileAnswer) (limit : ℕ) (s b : Bytes)
    (out : LimitedFileWriter × Bool) : Type 0 where
  within : length out.0.file + out.0.left ≡ limit
  outcome :
      ((out.1 ≡ false) × (out.0.file ≡ s ++ b))
      ⊎ ((out.1 ≡ true) × (Breaks file ⊎ (limit < length s + length b)))

write-IsWritten :
    (file : Bytes → Bytes → FileAnswer)
    → IsIoWriter file
    → (limit : ℕ) (w : LimitedFileWriter) (b : Bytes) → length w.file + w.left ≡ limit
    → IsWritten file limit w.file b (write w b (file w.file b))
unfolding write
write-IsWritten file io limit w b h =
    let answer = file w.file b in
    let most = io.at_most w.file b in
    let short = io.short w.file b in
    if_case (IsWritten file limit w.file b) (ltb w.left (length b)) _ _
      (λ e. record { within = h; outcome = inr (refl, inr (ground arith)) })
      (λ e. record {
        within =
            let fits : length b ≤ w.left = ground arith in
            omega
              (arith, length-append w.file (take answer.taken b), length-take answer.taken b most);
        outcome = elim (Bool-cases answer.fails) [
          | inl f ↦ inr (f, inl (w.file, b, f))
          | inr f ↦
              let all : length b ≤ answer.taken = ground arith in
              inl (f, ap (λ t. w.file ++ t) (take-all answer.taken b all))
        ];
      })

encode-IsWritten :
    (file : Bytes → Bytes → FileAnswer)
    → IsIoWriter file
    → (limit : ℕ) (w : LimitedFileWriter) (parts : List Bytes) → length w.file + w.left ≡ limit
    → IsWritten file limit w.file (concat parts) (encode file w parts)
unfolding encode
encode-IsWritten file io limit w [] h = record {
  within = h;
  outcome = inl (refl, sym (append-nil w.file));
}
encode-IsWritten file io limit w (part ∷ parts) h =
    let (w', failed) = write w part (file w.file part) in
    let one = write-IsWritten file io limit w part h in
    let rest = encode-IsWritten file io limit w' parts one.within in
    let sized = length-append part (concat parts) in
    elim one.outcome [
      | inr (e, why) ↦ rw e (record {
        within = one.within;
        outcome = inr (refl, elim why [ inl f ↦ inl f | inr g ↦ inr (omega (arith, g, sized)) ]);
      })
      | inl (e, all) ↦
          let sized' = length-append w.file part in
          let all' = ap (λ t. length t) all in
          rw e (record {
            within = rest.within;
            outcome = elim rest.outcome [
              | inl (f, all') ↦ inl (
                f,
                all' ∙ ap (λ t. t ++ concat parts) all ∙ append_assoc w.file part (concat parts),
              )
              | inr (f, inl g) ↦ inr (f, inl g)
              | inr (f, inr g) ↦ inr (f, inr (omega (arith, g, all', sized, sized')))
            ];
          })
    ]

-- If the file keeps the contract of io.Writer: it never has more than 128 MiB, also where the
-- encoding fails; a picture that is reported as encoded is in the file as a whole; and the encoding
-- fails only if the file does or the picture is larger than that.
pub encode-new_writer :
    (file : Bytes → Bytes → FileAnswer)
    → IsIoWriter file
    → (parts : List Bytes)
    → let out = encode file new_writer parts in
      (length out.0.file ≤ max_clipboard_image_bytes)
      × (((out.1 ≡ false) × (out.0.file ≡ concat parts))
          ⊎ ((out.1 ≡ true) × (Breaks file ⊎ (max_clipboard_image_bytes < length (concat parts)))))
unfolding new_writer
encode-new_writer file io parts =
    let e = encode-IsWritten file io max_clipboard_image_bytes new_writer parts refl in
    (
      omega (arith, e.within),
      elim e.outcome [
        | inl whole ↦ inl whole
        | inr (f, inl g) ↦ inr (f, inl g)
        | inr (f, inr g) ↦ inr (f, inr (omega (arith, g)))
      ],
    )
