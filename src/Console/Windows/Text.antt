-- ===== src/Console/Windows/Text.antt =====
-- What the calls of the Windows colour sink show (include/spdlite/sinks/console_sink.h).
use spdlite.Base.{
  ℕ, ◌+◌, ◌-◌, ◌%◌, ◌^◌, ◌≤◌, ◌<◌, ◌≡◌, refl, sym, ap, ◌∙◌, arith, List, [], ◌∷◌, ◌++◌,
  append_assoc, append-nil, Bytes, Bool, true, false, ◌&&◌, Option, none, some, length, length-take,
  length-drop, take, drop, take_all, take-append-drop, drop-drop, get_elem?, ltb, if◌then◌else◌,
  if_true, if_false,
}
use spdlite.Base.Exec.{Result, ok, fail, aborted, bind}
use spdlite.Level.{to_uint8, level_width}
use spdlite.Message.{LogMsg}
use spdlite.Console.Windows.{
  ApiCall, write_console, write_file, set_text_attribute, ConsoleSink, dword, write_console_,
  redirected, write_part, write_colored, write,
}

-- The bytes that calls show, and the attributes that they are shown with when the console starts
-- with the attributes `a`.
unfoldable pub shown : ℕ → List ApiCall → List (ℕ × Bytes)
shown a [] = []
shown a (write_console s ∷ calls) = (a, s) ∷ shown a calls
shown a (write_file s ∷ calls) = (a, s) ∷ shown a calls
shown a (set_text_attribute k ∷ calls) = shown k calls

unfoldable pub text : List (ℕ × Bytes) → Bytes
text [] = []
text ((a, s) ∷ parts) = s ++ text parts

-- The attributes that calls leave.
unfoldable pub attributes : ℕ → List ApiCall → ℕ
attributes a [] = a
attributes a (write_console s ∷ calls) = attributes a calls
attributes a (write_file s ∷ calls) = attributes a calls
attributes a (set_text_attribute k ∷ calls) = attributes k calls

-- The calls for one part: none for an empty one.
abbrev part : Bytes → List ApiCall
part [] = []
part (c ∷ s) = write_console (c ∷ s) ∷ []

dword_all : (s : Bytes) → length s < 2 ^ 32 → dword s ≡ s
dword_all s h = ap (λ n. take n s) (omega (arith, h)) ∙ take_all s

write_console_-part :
    (s : Bytes) (calls : List ApiCall)
    → length s < 2 ^ 32
    → write_console_ s calls ≡ calls ++ part s
unfolding write_console_
write_console_-part [] calls h = sym (append-nil calls)
write_console_-part (c ∷ s) calls h =
    let test : ltb 0 (length (c ∷ s)) ≡ true = ground arith in
    if_true _ test ∙ ap (λ t. calls ++ write_console t ∷ []) (dword_all (c ∷ s) h)

write_part-inside :
    (line : Bytes) (start size : ℕ) (calls : List ApiCall)
    → start + size ≤ length line
    → write_part line start size calls ≡ ok (write_console_ (take size (drop start line)) calls)
unfolding write_part
write_part-inside line start size calls h =
    let test : (ltb 0 size && ltb (length line) (start + size)) ≡ false = ground arith in
    if_false _ test

text-part :
    (a : ℕ) (s : Bytes) (more : List ApiCall)
    → text (shown a (part s ++ more)) ≡ s ++ text (shown a more)
unfolding text shown
text-part a [] more = refl
text-part a (c ∷ s) more = refl

attributes-part :
    (a : ℕ) (s : Bytes) (more : List ApiCall) → attributes a (part s ++ more) ≡ attributes a more
unfolding attributes
attributes-part a [] more = refl
attributes-part a (c ∷ s) more = refl

-- The calls that a write adds.
pub record Shown (s : ConsoleSink) (msg : LogMsg) (calls : List ApiCall)
    (out : Result (List ApiCall)) : Type 0 where
  pub more : List ApiCall
  pub returns : out ≡ ok (calls ++ more)
  pub line : text (shown s.orig_attribs more) ≡ msg.formatted
  pub reset : attributes s.orig_attribs more ≡ s.orig_attribs

module _ (s : ConsoleSink) (msg : LogMsg) (calls : List ApiCall) (color : ℕ)
    (usable : s.usable ≡ true) (small : length msg.formatted < 2 ^ 32)
    (in_table : get_elem? s.colors (to_uint8 msg.log_level) ≡ some color)
    (inside : msg.level_offset + level_width ≤ length msg.formatted) where
  abbrev before : Bytes
  before = take msg.level_offset msg.formatted

  abbrev tag : Bytes
  tag = take level_width (drop msg.level_offset msg.formatted)

  abbrev rest : Bytes
  rest = drop (msg.level_offset + level_width) msg.formatted

  whole : before ++ (tag ++ rest) ≡ msg.formatted
  whole =
      ap (λ r. before ++ (tag ++ r)) (sym (drop-drop level_width msg.level_offset msg.formatted))
      ∙ ap (λ r. before ++ r) (take-append-drop level_width (drop msg.level_offset msg.formatted))
      ∙ take-append-drop msg.level_offset msg.formatted

  abbrev colored : List ApiCall
  colored =
      part before
      ++ (set_text_attribute color ∷ (part tag ++ (set_text_attribute s.orig_attribs ∷ part rest)))

  -- In colour: the tag is between two changes of the attributes.
  pub bracketed :
      write_console_ rest (
        write_console_ tag (write_console_ before calls ++ set_text_attribute color ∷ [])
        ++ set_text_attribute s.orig_attribs ∷ [])
      ≡ calls ++ colored
  bracketed =
      write_console_-part rest _
        (omega (arith, small, length-drop (msg.level_offset + level_width) msg.formatted))
      ∙ ap (λ x. (x ++ set_text_attribute s.orig_attribs ∷ []) ++ part rest)
          (write_console_-part tag _
              (omega (arith, length-take level_width (drop msg.level_offset msg.formatted)))
            ∙ ap (λ x. (x ++ set_text_attribute color ∷ []) ++ part tag)
                (write_console_-part before calls
                  (omega (arith, small, length-take msg.level_offset msg.formatted))))
      ∙ simp append_assoc

  -- With the tag inside, no part reads behind the line, and the size of the last part is what is
  -- left of it.
  colored-inside :
      write_colored s msg.formatted msg.level_offset color calls
      ≡ ok (
          write_console_ rest (
            write_console_ tag (write_console_ before calls ++ set_text_attribute color ∷ [])
            ++ set_text_attribute s.orig_attribs ∷ []))
  unfolding write_colored
  colored-inside =
      ap (λ r. bind r (λ c. bind (second c) third))
        (write_part-inside msg.formatted 0 msg.level_offset calls (omega (arith, inside)))
      ∙ ap (λ r. bind r third)
          (write_part-inside msg.formatted msg.level_offset level_width
            (write_console_ before calls ++ set_text_attribute color ∷ []) inside)
      ∙ (λ i. write_part msg.formatted (ends i) (left i) last)
      ∙ write_part-inside msg.formatted (msg.level_offset + level_width) (length rest) last
          (omega (arith, length-drop (msg.level_offset + level_width) msg.formatted, inside))
      ∙ ap (λ t. ok (write_console_ t last)) (take_all rest)
    where
      second : List ApiCall → Result (List ApiCall)
      second c =
          write_part msg.formatted msg.level_offset level_width (c ++ set_text_attribute color ∷ [])

      third : List ApiCall → Result (List ApiCall)
      third c =
          write_part msg.formatted ((msg.level_offset + level_width) % 2 ^ 64)
            ((length msg.formatted + 2 ^ 64 - (msg.level_offset + level_width) % 2 ^ 64) % 2 ^ 64)
            (c ++ set_text_attribute s.orig_attribs ∷ [])

      last : List ApiCall
      last =
          write_console_ tag (write_console_ before calls ++ set_text_attribute color ∷ [])
          ++ set_text_attribute s.orig_attribs ∷ []

      ends : (msg.level_offset + level_width) % 2 ^ 64 ≡ msg.level_offset + level_width
      ends = omega (arith, inside, small)

      left :
          (length msg.formatted + 2 ^ 64 - (msg.level_offset + level_width) % 2 ^ 64) % 2 ^ 64
          ≡ length rest
      left =
          omega (arith, inside, small, length-drop (msg.level_offset + level_width) msg.formatted)

  in_color : Shown s msg calls (ok (calls ++ colored))
  unfolding shown text attributes
  in_color = record {
    more = colored;
    returns = refl;
    line =
        text-part s.orig_attribs before _
        ∙ ap (λ r. before ++ r)
            (text-part color tag (set_text_attribute s.orig_attribs ∷ part rest)
              ∙ ap (λ r. tag ++ r)
                  (ap (λ r. text (shown s.orig_attribs r)) (sym (append-nil (part rest)))
                    ∙ text-part s.orig_attribs rest []
                    ∙ append-nil rest))
        ∙ whole;
    reset =
        attributes-part s.orig_attribs before _
        ∙ attributes-part color tag (set_text_attribute s.orig_attribs ∷ part rest)
        ∙ ap (λ r. attributes s.orig_attribs r) (sym (append-nil (part rest)))
        ∙ attributes-part s.orig_attribs rest [];
  }

  plain : Shown s msg calls (ok (write_console_ msg.formatted calls))
  unfolding shown text attributes
  plain = record {
    more = part msg.formatted;
    returns = ap (λ r. ok r) (write_console_-part msg.formatted calls small);
    line =
        ap (λ r. text (shown s.orig_attribs r)) (sym (append-nil (part msg.formatted)))
        ∙ text-part s.orig_attribs msg.formatted []
        ∙ append-nil msg.formatted;
    reset =
        ap (λ r. attributes s.orig_attribs r) (sym (append-nil (part msg.formatted)))
        ∙ attributes-part s.orig_attribs msg.formatted [];
  }

  to_file : Shown s msg calls (ok (redirected msg.formatted calls))
  unfolding shown text attributes
  to_file = record {
    more = write_file msg.formatted ∷ [];
    returns = ap (λ t. ok (calls ++ write_file t ∷ [])) (dword_all msg.formatted small);
    line = append-nil msg.formatted;
    reset = refl;
  }

  -- Every write of the Windows colour sink shows exactly the line, whether the sink colours or not
  -- and whether the handle is a console or not, and leaves a console that had the saved attributes
  -- with those attributes. The handle is usable, the line is shorter than 2^32 bytes, the level
  -- is in the table, and the tag is inside the line.
  pub write-Shown : Shown s msg calls (write s msg calls)
  unfolding write
  write-Shown =
      by_tests s.usable usable s.should_color s.is_console
        (get_elem? s.colors (to_uint8 msg.log_level)) in_table
    where
      by_tests :
          (u : Bool)
          → u ≡ true
          → (c k : Bool) (o : Option ℕ) → o ≡ some color
          → (let out : Result (List ApiCall) =
                if u
                then (if c
                    then if k
                      then elim o [
                        | none ↦ fail aborted
                        | some x ↦ write_colored s msg.formatted msg.level_offset x calls
                      ]
                      else ok (redirected msg.formatted calls)
                    else if k
                    then ok (write_console_ msg.formatted calls)
                    else ok (redirected msg.formatted calls))
                else ok calls in
              Shown s msg calls out)
      by_tests true u true true o e = rw (e, colored-inside, bracketed) in_color
      by_tests true u true false o e = to_file
      by_tests true u false true o e = plain
      by_tests true u false false o e = to_file
      by_tests false u c k o e = absurd (cc u)
