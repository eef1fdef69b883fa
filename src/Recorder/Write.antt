-- ===== src/Recorder/Write.antt =====
-- `WriteText` of src/core/recorder/VDTraceFileSinkWorkerProcess.cpp. `WriteFile` is the parameter
-- `write_file`: what it stores in `written` for a call number and a chunk length, or none where it
-- fails. The file is the list of the bytes that successful calls wrote.
use vd_trace.Base.{
  ℕ, zero, suc, ◌+◌, ◌-◌, ◌≤◌, ◌≡◌, refl, ap, sym, ◌∙◌, Bool, true, false, not, ◌||◌, List, [], ◌∷◌,
  ◌++◌, Option, none, some, arith, ◌==◌, if◌then◌else◌, Option-cases, inl, inr, min, length, take,
  drop, u32_mod, ◌↔◌, take-append-drop, ltb,
}
use mathlib.Core.List.{append_assoc, append-nil}

pub record WriteResult : Type 0 where
  pub ok : Bool
  pub file : List ℕ

module _ (write_file : ℕ → ℕ → Option ℕ) where
  -- The loop, on fuel. It comes to none where the fuel runs out, and where `WriteFile` reports more
  -- bytes than it was given, past which the source reads out of bounds.
  write_loop : ℕ → ℕ → List ℕ → List ℕ → Option WriteResult
  write_loop zero call file [] = some (record { ok = true; file = file })
  write_loop zero call file (x ∷ xs) = none
  write_loop (suc fuel) call file [] = some (record { ok = true; file = file })
  write_loop (suc fuel) call file (x ∷ xs) =
      let chunk = min (length (x ∷ xs)) (u32_mod - 1) in
      elim (write_file call chunk) [
        | none ↦ some (record { ok = false; file = file })
        | some zero ↦ some (record { ok = false; file = file })
        | some (suc written) ↦
            let rest = write_loop fuel (call + 1) (file ++ x ∷ take written xs) (drop written xs) in
            if ltb chunk (suc written) then none else rest
      ]

  -- Every round takes a byte or more, so that the length of the text is fuel enough.
  unfoldable pub write_text : Bool → List ℕ → List ℕ → Option WriteResult
  unfolding write_loop
  write_text file_open file text =
      if not file_open || length text == 0
      then some (record { ok = file_open; file = file })
      else write_loop (length text) 0 file text

  -- What a call of `WriteText` comes to: `written` is appended to the file, `unwritten` is the
  -- rest of the text, and it reports success exactly where there is no rest.
  pub record Writes (file text : List ℕ) (result : Option WriteResult) : Type 0 where
    pub ok : Bool
    pub written : List ℕ
    pub unwritten : List ℕ
    pub returns : result ≡ some (record { ok = ok; file = file ++ written })
    pub splits : text ≡ written ++ unwritten
    pub success : (ok ≡ true) ↔ (unwritten ≡ [])

  fails :
      (file : List ℕ) (x : ℕ) (xs : List ℕ)
      → Writes file (x ∷ xs) (some (record { ok = false; file = file }))
  fails file x xs = record {
    ok = false;
    written = [];
    unwritten = x ∷ xs;
    returns = ap (λ l. some (record { ok = false; file = l })) (sym (append-nil file));
    splits = refl;
    success = (λ e. ground arith, λ e. ground arith);
  }

  finishes : (file : List ℕ) → Writes file [] (some (record { ok = true; file = file }))
  finishes file = record {
    ok = true;
    written = [];
    unwritten = [];
    returns = ap (λ l. some (record { ok = true; file = l })) (sym (append-nil file));
    splits = refl;
    success = (λ e. refl, λ e. refl);
  }

  goes_on :
      (file : List ℕ) (n x : ℕ) (xs : List ℕ) (result : Option WriteResult)
      → Writes (file ++ x ∷ take n xs) (drop n xs) result
      → Writes file (x ∷ xs) result
  goes_on file n x xs result w = record {
    ok = w.ok;
    written = x ∷ take n xs ++ w.written;
    unwritten = w.unwritten;
    returns =
        w.returns
        ∙ ap (λ l. some (record { ok = w.ok; file = l }))
            (append_assoc file (x ∷ take n xs) w.written);
    splits =
        ap (λ l. x ∷ l)
          (sym (take-append-drop n xs)
            ∙ ap (λ l. take n xs ++ l) w.splits
            ∙ sym (append_assoc (take n xs) w.written w.unwritten));
    success = w.success;
  }

  shorter : (n : ℕ) (xs : List ℕ) → length (drop n xs) ≤ length xs
  shorter zero xs = omega arith
  shorter (suc n) [] = omega arith
  shorter (suc n) (x ∷ xs) = omega (arith, shorter n xs)

  -- What is documented of `WriteFile`: it reports no more bytes than it was given.
  abbrev pub IsBounded : Type 0
  IsBounded = (call chunk written : ℕ) → write_file call chunk ≡ some written → written ≤ chunk

  write_loop-Writes :
      IsBounded
      → (fuel call : ℕ) (file text : List ℕ) → length text ≤ fuel
      → Writes file text (write_loop fuel call file text)
  unfolding write_loop
  write_loop-Writes sane zero call file [] h = finishes file
  write_loop-Writes sane zero call file (x ∷ xs) h = absurd (omega arith)
  write_loop-Writes sane (suc fuel) call file [] h = finishes file
  write_loop-Writes sane (suc fuel) call file (x ∷ xs) h =
      let chunk = min (length (x ∷ xs)) (u32_mod - 1) in
      elim (Option-cases (write_file call chunk)) [
        | inl e ↦ rw (e, write_loop) (fails file x xs)
        | inr (zero, e) ↦ rw (e, write_loop) (fails file x xs)
        | inr (suc n, e) ↦
            let inside : ltb chunk (suc n) ≡ false = ground (arith, sane call chunk (suc n) e) in
            rw (e, inside, write_loop)
              (goes_on file n x xs (write_loop fuel (call + 1) (file ++ x ∷ take n xs) (drop n xs))
                (write_loop-Writes sane fuel (call + 1) (file ++ x ∷ take n xs) (drop n xs)
                  (omega (arith, shorter n xs))))
      ]

  -- `WriteText` on an open file always returns; it has appended a prefix of the text to the file,
  -- and it reports success exactly where that is the whole text. The hypothesis: `WriteFile`
  -- reports no more bytes than it was given.
  pub write_text-Writes :
      IsBounded → (file text : List ℕ) → Writes file text (write_text true file text)
  unfolding write_text
  write_text-Writes sane file [] = finishes file
  write_text-Writes sane file (x ∷ xs) =
      let e : (length (x ∷ xs) == 0) ≡ false = ground arith in
      rw e (write_loop-Writes sane (length (x ∷ xs)) 0 file (x ∷ xs) (omega arith))
