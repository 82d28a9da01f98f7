-- ===== src/Bench/FormatterBench.antt =====
-- bench/formatter_bench.cpp: the formatter in isolation. The benchmark library gives the number of
-- rounds and reads what the buffer holds; `seen` are the lines that it was shown. The source names
-- a type `string_view_t` that is declared nowhere; it is read as `std::string_view` here.
use spdlite.Base.{
  ℕ, ◌+◌, ◌*◌, ◌%◌, List, [], ◌∷◌, ◌++◌, Bytes, codes, Bool, true, false, if◌then◌else◌,
}
use spdlite.Base.Int.{pos}
use spdlite.Base.Exec.{Result, ok, fail, Exec, Done, ◌>>◌}
use spdlite.Level.{Level, info}
use spdlite.Buffer.{MemoryBuf}
use spdlite.Formatter
use spdlite.Formatter.{
  Formatter, FormatOptions, TimePrecision, none, ms, us, ns, LibC, default_options, format_header,
}
use spdlite.Programs.{for_range}

abbrev pub hello_text : Bytes
hello_text = codes "Hello world"

abbrev pub typical_text : Bytes
typical_text = codes "Hello logger: msg number 12345..............."

abbrev pub long_text : Bytes
long_text =
    codes
      "Lorem ipsum dolor sit amet, consectetur adipiscing elit. Vestibulum pharetra metus cursus "
    ++ codes
        "lacus placerat congue. Nulla egestas, mauris a tincidunt tempus, enim lectus volutpat mi, "
    ++ codes
        "eu consequat sem libero nec massa. In dapibus ipsum a diam rhoncus gravida. Etiam non dapibus eros. Donec "
    ++ codes
        "fringilla dui sed augue pretium, nec scelerisque est maximus. Nullam convallis, sem nec blandit maximus, "
    ++ codes
        "nisi turpis ornare nisl, sit amet volutpat neque massa eu odio. Maecenas malesuada quam ex."

module _ (B : MemoryBuf) (c : LibC) (windows : Bool) (raw : ℕ) where
  -- A formatter and a buffer.
  abbrev pub Pair : Type 0
  Pair = Formatter × B.State

  unfoldable pub format_line : ℕ → Level → Bytes → Exec Pair Done
  format_line t lvl payload (f, dest) = elim (format_header B c f (pos t) lvl raw dest) [
    | ok (f', b) ↦
        let b1 = B.append b payload in
        let b2 = if windows then B.push_back b1 13 else b1 in (ok tt, (f', B.push_back b2 10))
    | fail e ↦ (fail e, (f, dest))
  ]

  abbrev pub Seen : Type 0
  Seen = Pair × List Bytes

  -- `DoNotOptimize(buf.data())`
  abbrev pub show : Exec Seen Done
  show ((f, buf), seen) = (ok tt, ((f, buf), seen ++ B.contents buf ∷ []))

  -- A line, built in the cleared buffer.
  abbrev pub fresh_line : ℕ → Bytes → Exec Seen Done
  fresh_line t payload ((f, buf), seen) =
      let (r, p) = format_line t info payload (f, B.clear buf) in (r, (p, seen))

  -- One round of a loop.
  abbrev pub round : ℕ → Bytes → Exec Seen Done
  round t payload = fresh_line t payload >> show

  -- A line in the buffer as it is, before the loop.
  abbrev pub warm_up : ℕ → Bytes → Exec Seen Done
  warm_up t payload (p, seen) = let (r, p') = format_line t info payload p in (r, (p', seen))

  abbrev pub fresh : Bytes → FormatOptions → Seen
  fresh name o = ((Formatter.formatter name o, B.fresh), [])

  -- `base + std::chrono::milliseconds(ms++ % 1000)`, in nanoseconds
  abbrev pub varying : ℕ → ℕ → ℕ
  varying base i = base + (i % 1000) * 1000000

  -- The benchmarks, for `n` rounds; `now` is the time that they read first.
  unfoldable pub bench_format_short : ℕ → ℕ → Result Done × Seen
  bench_format_short n now =
      for_range n 0 (λ i. round now hello_text) (fresh (codes "mylogger") default_options)

  unfoldable pub bench_format_typical : ℕ → ℕ → Result Done × Seen
  bench_format_typical n now =
      for_range n 0 (λ i. round now typical_text) (fresh (codes "mylogger") default_options)

  unfoldable pub bench_format_long : ℕ → ℕ → Result Done × Seen
  bench_format_long n now =
      for_range n 0 (λ i. round now long_text) (fresh (codes "mylogger") default_options)

  unfoldable pub bench_timestamp_cached : ℕ → ℕ → Result Done × Seen
  bench_timestamp_cached n now =
      (warm_up now (codes "x") >> for_range n 0 (λ i. round now (codes "x")))
        (fresh (codes "x") default_options)

  unfoldable pub bench_timestamp_varying_ms : ℕ → ℕ → Result Done × Seen
  bench_timestamp_varying_ms n base =
      for_range n 0 (λ i. round (varying base i) (codes "x")) (fresh (codes "x") default_options)

  unfoldable pub bench_options_cached : Bool → Bool → TimePrecision → ℕ → ℕ → Result Done × Seen
  bench_options_cached utc show_date p n now =
      (warm_up now (codes "warmup") >> for_range n 0 (λ i. round now typical_text)) (
        fresh (codes "mylogger")
          (record default_options { utc = utc; show_date = show_date; precision = p }))

  unfoldable pub bench_options_varying : Bool → Bool → TimePrecision → ℕ → ℕ → Result Done × Seen
  bench_options_varying utc show_date p n base =
      for_range n 0 (λ i. round (varying base i) typical_text)
        (fresh (codes "mylogger")
          (record default_options { utc = utc; show_date = show_date; precision = p }))

  unfoldable pub bench_options_thread_id : Bool → ℕ → ℕ → Result Done × Seen
  bench_options_thread_id show_tid n now =
      (warm_up now (codes "warmup") >> for_range n 0 (λ i. round now typical_text))
        (fresh (codes "mylogger") (record default_options { show_thread_id = show_tid }))

  -- `BENCHMARK(...)->Name(...)`: the benchmarks under their names, in the order of registration.
  abbrev pub registered : List (Bytes × (ℕ → ℕ → Result Done × Seen))
  registered =
      (codes "bench_format_short", bench_format_short)
      ∷ (codes "bench_format_typical", bench_format_typical)
      ∷ (codes "bench_format_long", bench_format_long)
      ∷ (codes "bench_timestamp_cached", bench_timestamp_cached)
      ∷ (codes "bench_timestamp_varying_ms", bench_timestamp_varying_ms)
      ∷ (codes "opts_cached/default", bench_options_cached false true ms)
      ∷ (codes "opts_cached/utc", bench_options_cached true true ms)
      ∷ (codes "opts_cached/no_date", bench_options_cached false false ms)
      ∷ (codes "opts_cached/no_frac", bench_options_cached false true none)
      ∷ (codes "opts_cached/us", bench_options_cached false true us)
      ∷ (codes "opts_cached/ns", bench_options_cached false true ns)
      ∷ (codes "opts_cached/minimal", bench_options_cached false false none)
      ∷ (codes "opts_varying/default", bench_options_varying false true ms)
      ∷ (codes "opts_varying/utc", bench_options_varying true true ms)
      ∷ (codes "opts_varying/no_date", bench_options_varying false false ms)
      ∷ (codes "opts_varying/ns", bench_options_varying false true ns)
      ∷ (codes "opts_cached/tid_off", bench_options_thread_id false)
      ∷ (codes "opts_cached/tid_on", bench_options_thread_id true)
      ∷ []
