-- ===== src/Console/Color.antt =====
-- The line that the colour sink writes (include/spdlite/sinks/console_sink.h).
use spdlite.Base.{
  ℕ, ◌+◌, ◌≤◌, ◌≡◌, refl, ◌∙◌, ap, sym, arith, [], ◌++◌, append_assoc, Bytes, Bool, true, false,
  none, some, length, length-take, length-drop, take-append-drop, drop-drop, take, drop, IsRange,
  get_elem?, if◌then◌else◌,
}
use spdlite.Base.Exec.{Result, ok, fail, aborted, Done}
use spdlite.Level.{to_uint8, level_width}
use spdlite.Message.{LogMsg}
use spdlite.Buffer.{MemoryBuf, IsLawful}
use spdlite.Streams.{Stream, Streams, stdout, stderr, read, fwrite_bytes}
use spdlite.Console.{ConsoleSink, colored, write, reset}

take-IsRange : (n : ℕ) (s : Bytes) → IsRange s → IsRange (take n s)
take-IsRange n s h = omega (arith, length-take n s)

drop-IsRange : (n : ℕ) (s : Bytes) → IsRange s → IsRange (drop n s)
drop-IsRange n s h = omega (arith, length-drop n s)

module _ (B : MemoryBuf) (L : IsLawful B) where
  -- A buffer that shows `t`, and then `t` with `s` behind it.
  grow :
      (b : B.State) (s t : Bytes)
      → L.IsValid b × (B.contents b ≡ t)
      → IsRange s
      → L.IsValid (B.append b s) × (B.contents (B.append b s) ≡ t ++ s)
  grow b s t (v, e) r = (L.append-IsValid b s r v, L.contents-append b s r v ∙ ap (λ x. x ++ s) e)

  colored-contents :
      (cbuf : B.State) (color line : Bytes) (n : ℕ)
      → L.IsValid cbuf
      → IsRange color
      → IsRange line
      → L.IsValid (colored B cbuf color line n)
        × (B.contents (colored B cbuf color line n)
            ≡ take n line
              ++ (color
                  ++ (take level_width (drop n line) ++ (reset ++ drop (n + level_width) line))))
  unfolding colored
  colored-contents cbuf color line n v rc rl =
      let (v5, e5) =
        grow _ (drop (n + level_width) line) _
          (grow _ reset _
            (grow _ (take level_width (drop n line)) _
              (grow _ color _
                (grow (B.clear cbuf) (take n line) []
                  (L.clear-IsValid cbuf v, L.contents-clear cbuf v) (take-IsRange n line rl))
                rc)
              (take-IsRange level_width (drop n line) (drop-IsRange n line rl)))
            (omega arith))
          (drop-IsRange (n + level_width) line rl) in
      (v5, e5 ∙ simp append_assoc)

  -- What one `write` puts on the stream of the sink.
  pub record Wrote (s : ConsoleSink B) (msg : LogMsg) (color : Bytes) (w : Streams)
      (out : Result Done × (ConsoleSink B × Streams)) : Type 0 where
    pub before : Bytes
    pub tag : Bytes
    pub rest : Bytes
    pub line : msg.formatted ≡ before ++ (tag ++ rest)
    pub tag_at : (length before ≡ msg.level_offset) × (length tag ≡ level_width)
    pub returns : out.0 ≡ ok tt
    pub text :
        read s.file out.1.1
        ≡ read s.file w
          ++ (if s.should_color
              then before ++ (color ++ (tag ++ (reset ++ rest)))
              else msg.formatted)
    pub buffer : L.IsValid out.1.0.cbuf
    pub settings :
        (out.1.0.mode ≡ s.mode)
        × (out.1.0.should_color ≡ s.should_color)
        × (out.1.0.colors ≡ s.colors)

  read-fwrite_bytes :
      (f : Stream) (s : Bytes) (w : Streams) → read f (fwrite_bytes s f w) ≡ read f w ++ s
  unfolding fwrite_bytes
  read-fwrite_bytes stdout s w = refl
  read-fwrite_bytes stderr s w = refl

  module _ (s : ConsoleSink B) (msg : LogMsg) (color : Bytes) (w : Streams) (v : L.IsValid s.cbuf)
      (rl : IsRange msg.formatted) (rc : IsRange color)
      (listed : get_elem? s.colors (to_uint8 msg.log_level) ≡ some color)
      (inside : msg.level_offset + level_width ≤ length msg.formatted) where
    abbrev pub n : ℕ
    n = msg.level_offset

    parts :
        msg.formatted
        ≡ take n msg.formatted
          ++ (take level_width (drop n msg.formatted) ++ drop (n + level_width) msg.formatted)
    parts =
        sym (take-append-drop n msg.formatted)
        ∙ ap (λ r. take n msg.formatted ++ r)
            (sym (take-append-drop level_width (drop n msg.formatted))
              ∙ ap (λ r. take level_width (drop n msg.formatted) ++ r)
                  (drop-drop level_width n msg.formatted))

    abbrev pub b : B.State
    b = colored B s.cbuf color msg.formatted n

    pub built :
        L.IsValid b
        × (B.contents b
            ≡ take n msg.formatted
              ++ (color
                  ++ (take level_width (drop n msg.formatted)
                      ++ (reset ++ drop (n + level_width) msg.formatted))))
    built = colored-contents s.cbuf color msg.formatted n v rc rl

    -- The two outcomes.
    abbrev pub outcome : Bool → Result Done × (ConsoleSink B × Streams)
    outcome true = (ok tt, (record s { cbuf = b }, fwrite_bytes (B.contents b) s.file w))
    outcome false = (ok tt, (s, fwrite_bytes msg.formatted s.file w))

    pub write-outcome : write B msg (s, w) ≡ outcome s.should_color
    unfolding write
    write-outcome = by_color s.should_color
      where
        by_color :
            (c : Bool)
            → (if c
                then elim (get_elem? s.colors (to_uint8 msg.log_level)) [
                  | none ↦ (fail aborted, (s, w))
                  | some x ↦ (
                    ok tt,
                    (
                      record s { cbuf = colored B s.cbuf x msg.formatted n },
                      fwrite_bytes (B.contents (colored B s.cbuf x msg.formatted n)) s.file w,
                    ),
                  )
                ]
                else (ok tt, (s, fwrite_bytes msg.formatted s.file w)))
              ≡ outcome c
        by_color true = rw listed
        by_color false = refl

    outcome_text :
        (c : Bool)
        → read s.file (outcome c).1.1
          ≡ read s.file w
            ++ (if c
                then take n msg.formatted
                  ++ (color
                      ++ (take level_width (drop n msg.formatted)
                          ++ (reset ++ drop (n + level_width) msg.formatted)))
                else msg.formatted)
    outcome_text true =
        read-fwrite_bytes s.file (B.contents b) w ∙ ap (λ x. read s.file w ++ x) built.1
    outcome_text false = read-fwrite_bytes s.file msg.formatted w

    outcome_kept :
        (c : Bool)
        → let out = outcome c in
          (out.0 ≡ ok tt)
          × L.IsValid out.1.0.cbuf
          × (out.1.0.mode ≡ s.mode)
          × (out.1.0.should_color ≡ s.should_color)
          × (out.1.0.colors ≡ s.colors)
    outcome_kept true = (refl, built.0, refl, refl, refl)
    outcome_kept false = (refl, v, refl, refl, refl)

    -- A write of the colour sink puts the line on its stream, with the colour in front of the tag
    -- and the reset behind it exactly when the sink colours, and keeps the settings of the sink.
    -- The line and the colour are shorter than 2^63 bytes, the level is in the table, and the tag
    -- is inside the line.
    pub write-Wrote : Wrote s msg color w (write B msg (s, w))
    write-Wrote = rw write-outcome (
        let kept = outcome_kept s.should_color in
        record {
          before = take n msg.formatted;
          tag = take level_width (drop n msg.formatted);
          rest = drop (n + level_width) msg.formatted;
          line = parts;
          tag_at = (
            omega (arith, length-take n msg.formatted),
            omega (
              arith,
              length-take level_width (drop n msg.formatted),
              length-drop n msg.formatted,
            ),
          );
          returns = kept.0;
          text = outcome_text s.should_color;
          buffer = kept.1;
          settings = (kept.2, kept.3, kept.4);
        })
