-- ===== src/Popen/Pages.antt =====
-- The loop of `read_##cmd` in hw5/2/driver.c, which prints a stream in pages.
use native.Mathlib.Decide.{dec_lt}
use nsysu_system_programming.Prelude.{
  ℕ, zero, suc, ◌*◌, ◌≤◌, ◌<◌, ◌≡◌, refl, sym, ap, ◌∙◌, Option, none, some, [], ◌∷◌, ◌++◌,
  append-nil, append_assoc, arith, length, take, drop, length-append, length-take, length-drop,
  take-append-drop, Str, drop-out, take-all,
}

abbrev page_first : Str → Option (Str × Str) → Option (Str × Str)
page_first page none = none
page_first page (some (out, buf)) = some (page ++ out, buf)

module _ (size : ℕ) where
  -- `fread(buf, 1, PAGE_SIZE, f)` of a stream with the text `d` left: what is in `buf` then.
  unfoldable pub fread_into : Str → Str → Str
  fread_into d buf = take size d ++ drop (length (take size d)) buf

  -- The `while` loop of `read_##cmd`: what it prints of a stream with the text `d` left, and `buf`
  -- after it. `none` if the fuel does not do.
  unfoldable pub read_loop : (fuel : ℕ) → Str → Str → Option (Str × Str)
  unfolding fread_into
  read_loop zero d buf = none
  read_loop (suc fuel) [] buf = some ([], buf)
  read_loop (suc fuel) (c ∷ d) buf =
      page_first (fread_into (c ∷ d) buf)
        (read_loop fuel (drop size (c ∷ d)) (fread_into (c ∷ d) buf))

  -- Whole pages: the text, and what fills the last page.
  pub record Printed (d : Str) (r : Str × Str) : Type 0 where
    pub filling : Str
    pub text : r.0 ≡ d ++ filling
    pub rest_of_page : length filling < size
    pub pages : ℕ
    pub whole : length r.0 ≡ pages * size
    pub page : length r.1 ≡ size

  fread_into-length : (d buf : Str) → length buf ≡ size → length (fread_into d buf) ≡ size
  unfolding fread_into
  fread_into-length d buf h =
      let front = take size d in
      omega (
        arith,
        length-append front (drop (length front) buf),
        length-take size d,
        length-drop (length front) buf,
      )

  -- A page that the text fills.
  fread_into-full :
      (d buf : Str) → length buf ≡ size → size ≤ length d → fread_into d buf ≡ take size d
  unfolding fread_into
  fread_into-full d buf h k =
      ap (λ t. take size d ++ t)
        (drop-out (length (take size d)) buf (omega (arith, length-take size d)))
      ∙ append-nil (take size d)

  -- The last page.
  fread_into-last : (d buf : Str) → length d ≤ size → fread_into d buf ≡ d ++ drop (length d) buf
  unfolding fread_into
  fread_into-last d buf h = ap (λ t. t ++ drop (length t) buf) (take-all size d h)

  Printed-last :
      (d buf : Str)
      → length buf ≡ size
      → 0 < length d
      → length d ≤ size
      → Printed d ((d ++ drop (length d) buf) ++ [], d ++ drop (length d) buf)
  Printed-last d buf h some_left k =
      let out = d ++ drop (length d) buf in
      let whole_page : length out ≡ size =
        omega (arith, length-append d (drop (length d) buf), length-drop (length d) buf) in
      record {
        filling = drop (length d) buf;
        text = append-nil out;
        rest_of_page = omega (arith, length-drop (length d) buf);
        pages = 1;
        whole = ap length (append-nil out) ∙ omega (arith, whole_page);
        page = whole_page;
      }

  read_loop-none : (fuel : ℕ) (buf : Str) → 0 < fuel → read_loop fuel [] buf ≡ some ([], buf)
  unfolding read_loop
  read_loop-none zero buf h = absurd (omega arith)
  read_loop-none (suc fuel) buf h = refl

  Printed-more :
      (d : Str) (r : Str × Str)
      → size ≤ length d
      → Printed (drop size d) r
      → Printed d (take size d ++ r.0, r.1)
  Printed-more d r h o = record {
    filling = o.filling;
    text =
        ap (λ t. take size d ++ t) o.text
        ∙ sym (append_assoc (take size d) (drop size d) o.filling)
        ∙ ap (λ t. t ++ o.filling) (take-append-drop size d);
    rest_of_page = o.rest_of_page;
    pages = suc o.pages;
    whole = omega (arith, length-append (take size d) r.0, length-take size d, o.whole);
    page = o.page;
  }

  pub read_loop_from :
      (fuel : ℕ) (d buf : Str)
      → 0 < size
      → length buf ≡ size
      → length d < fuel
      → (r : Str × Str) × (read_loop fuel d buf ≡ some r) × Printed d r
  unfolding read_loop
  read_loop_from zero d buf p h e = absurd (omega arith)
  read_loop_from (suc fuel) [] buf p h e = (
    ([], buf),
    refl,
    record {
      filling = [];
      text = refl;
      rest_of_page = p;
      pages = 0;
      whole = omega arith;
      page = h;
    },
  )
  read_loop_from (suc fuel) (c ∷ d) buf p h e = elim (dec_lt size (length (c ∷ d))) [
    | yes more ↦
        let full = fread_into-full (c ∷ d) buf h (omega arith) in
        let rest =
          read_loop_from fuel (drop size (c ∷ d)) (fread_into (c ∷ d) buf) p
            (fread_into-length (c ∷ d) buf h) (omega (arith, length-drop size (c ∷ d))) in
        (
          (take size (c ∷ d) ++ rest.0.0, rest.0.1),
          ap (page_first (fread_into (c ∷ d) buf)) rest.1
              ∙ ap (λ t. some (t ++ rest.0.0, rest.0.1)) full,
          Printed-more (c ∷ d) rest.0 (omega arith) rest.2,
        )
    | no at_end ↦
        let page = fread_into (c ∷ d) buf in
        let out = (c ∷ d) ++ drop (length (c ∷ d)) buf in
        (
          (out ++ [], out),
          ap (λ t. page_first page (read_loop fuel t page)) (drop-out size (c ∷ d) (omega arith))
              ∙ ap (page_first page) (read_loop-none fuel page (omega arith))
              ∙ ap (λ t. some (t ++ [], t)) (fread_into-last (c ∷ d) buf (omega arith)),
          Printed-last (c ∷ d) buf h (omega arith) (omega arith),
        )
  ]
