-- ===== src/Parse/Entry/Calls.antt =====
-- src/parse.rs: the calls that a program makes, `cJSON_ParseWithLengthOpts` and `cJSON_ParseWithOpts`.
use rust_json_port_mortem.Base.{
  ℕ, zero, suc, ◌+◌, ◌-◌, ◌≤◌, ◌<◌, ◌≡◌, ◌≢◌, Bool, some, arith, Returns, returns, Returns-bind,
  Returns-mono, Bool-cases, ◌==◌, inl, inr, ap, false,
}
use native.Mathlib.Decide.{dec_lt}
use rust_json_port_mortem.Alloc.{Memory, Grant}
use rust_json_port_mortem.Parse.State.{Input, read-ok}
use rust_json_port_mortem.Parse.Number.{Libc, StrtodWithin}
use rust_json_port_mortem.Parse.Entry.{
  GlobalError, cstr_len, cjson_parse_with_opts, cjson_parse_with_length_opts,
}
use rust_json_port_mortem.Parse.Entry.Total.{Finished, parse_at-Finished}

-- The first nul at an address or behind it.
record FirstNul (i : Input) (p n : ℕ) : Type 0 where
  from : p ≤ n
  nul : i.content n ≡ 0
  before : (k : ℕ) → p ≤ k → k < n → i.content k ≢ 0

FirstNul-next : (i : Input) (p n : ℕ) → i.content p ≢ 0 → FirstNul i (p + 1) n → FirstNul i p n
FirstNul-next i p n h r = record {
  from = omega (arith, r.from);
  nul = r.nul;
  before = λ k a b. at k a b (dec_lt p k);
}
  where
    at : (k : ℕ) → p ≤ k → k < n → Dec (p < k) → i.content k ≢ 0
    at k a b (yes lt) = r.before k (omega arith) b
    at k a b (no ge) = let e : k ≡ p = omega arith in rw e h

module _ (i : Input) (z : ℕ) (nul : i.content z ≡ 0) (inside : z < i.length) where
  cstr_len-FirstNul :
      (f p len : ℕ)
      → p ≤ z
      → z - p < f
      → Returns (λ n. (x : ℕ) × FirstNul i p x × (x ≤ z) × (n + p ≡ len + x)) (cstr_len i f p len)
  unfolding cstr_len
  cstr_len-FirstNul zero p len h fuel = absurd (omega arith)
  cstr_len-FirstNul (suc f) p len h fuel =
      rw (read-ok i p (omega arith)) (elim (Bool-cases (i.content p == 0)) [
        | inl yes_ ↦ rw yes_ (
            returns (
              p,
              record {
                from = omega arith;
                nul = ground arith;
                before = λ k a b. absurd (omega arith);
              },
              h,
              omega arith,
            ))
        | inr no_ ↦ rw no_ (
            Returns-mono
              (cstr_len-FirstNul f (p + 1) (len + 1) (later no_) (omega (arith, later no_)))
              λ n (x, r, le, e). (x, FirstNul-next i p x (ground arith) r, le, omega arith))
      ])
    where
      later : (i.content p == 0) ≡ false → p + 1 ≤ z
      later e = elim (dec_lt p z) [
        | yes lt ↦ omega arith
        | no ge ↦ let same : p ≡ z = omega arith in absurd (ground (arith, ap i.content same))
      ]

module _ {D : Type 0} (libc : Libc D) (grant : Grant) (i : Input) (value : ℕ) (m : Memory) where
  -- For a buffer of any bytes: the call ends, reads inside of the buffer only, and leaves behind a tree
  -- that accounts for all the memory that is kept, or an error at a byte of the buffer and no memory.
  pub cjson_parse_with_length_opts-Finished :
      (require : Bool)
      → StrtodWithin libc
      → Returns
          (Finished i value m)
          (cjson_parse_with_length_opts libc grant (some (value, i)) require m)
  unfolding cjson_parse_with_length_opts
  cjson_parse_with_length_opts-Finished require within =
      parse_at-Finished libc grant i value within m require

  -- For a text that has a nul in the memory that may be read, the call does so with the text up to its
  -- first nul, and that nul.
  pub cjson_parse_with_opts-Finished :
      (require : Bool) (e : GlobalError) (z : ℕ)
      → StrtodWithin libc
      → i.content z ≡ 0
      → z < i.length
      → Returns
          (λ r.
            (n : ℕ) × (n ≤ z)
            × (i.content n ≡ 0)
            × ((k : ℕ) → k < n → i.content k ≢ 0)
            × Finished (record { content = i.content; length = n + 1 }) value m r)
          (cjson_parse_with_opts libc grant (some (value, i)) require e m)
  unfolding cjson_parse_with_opts
  cjson_parse_with_opts-Finished require e z within nul inside =
      Returns-bind (cstr_len-FirstNul i z nul inside (i.length + 1) 0 0 (omega arith) (omega arith))
        λ n (x, r, le, eq).
          let same : n ≡ x = omega arith in
          rw same (
            Returns-mono
              (parse_at-Finished libc grant (record { content = i.content; length = x + 1 }) value
                within m require)
              λ r' fin. (x, le, r.nul, (λ k lt. r.before k (omega arith) lt), fin))
