-- ===== src/Utils/Sort.antt =====
-- src/utils.rs: `compare_strings`, `sort_list` and `sort_object`, on items at addresses.
pub mod Lists
pub mod Steps
pub mod Merge
pub mod Result
pub mod Order
use rust_json_port_mortem.Base.{
  ℕ, zero, suc, Bool, true, false, not, ◌&&◌, ◌||◌, Option, none, some, ◌==◌, if◌then◌else◌,
  out_of_fuel,
}
use rust_json_port_mortem.Model.{Bytes, ℤ, pos, negsuc}
use rust_json_port_mortem.Manip.Lookup.{cstr_cmp, insensitive_loop}
use rust_json_port_mortem.Manip.Links.{
  null, Action, pure, ◌>>=◌, ◌>>◌, set_next, set_prev, set_child, next_of, prev_of, child_of,
  string_of,
}

-- `compare_strings`; one pointer twice is equal to itself by the loops, too.
unfoldable pub compare_strings : Option Bytes → Option Bytes → Bool → ℤ
compare_strings none string2 case_sensitive = pos 1
compare_strings (some string1) none case_sensitive = pos 1
compare_strings (some string1) (some string2) true = cstr_cmp string1 string2
compare_strings (some string1) (some string2) false = insensitive_loop string1 string2

abbrev pub is_negative : ℤ → Bool
is_negative (pos n) = false
is_negative (negsuc n) = true

-- The loop that finds the middle: `second`
unfoldable pub middle_loop : ℕ → ℕ → ℕ → Action ℕ
middle_loop zero second current_item = λ h. out_of_fuel
middle_loop (suc fuel) second current_item =
    let rest = middle_loop fuel in
    if current_item == null
    then pure second
    else next_of second >>= λ second'. next_of current_item >>= λ current'.
        if not (current' == null) then next_of current' >>= rest second' else rest second' current'

-- The split of the lists
unfoldable pub split_lists : ℕ → Action (Unit {0})
split_lists second =
    if not (second == null)
    then (prev_of second >>= λ prev.
        if not (prev == null) then set_next prev null >> set_prev second null else pure tt)
    else pure tt

-- What stands behind the loop that merges.
unfoldable pub append_rest : ℕ → ℕ → ℕ → ℕ → Action ℕ
append_rest result result_tail first second =
    if not (first == null) && result == null
    then pure first
    else (if not (first == null)
        then set_next result_tail first >> set_prev first result_tail
        else pure tt)
      >> (if not (second == null) && result == null
          then pure second
          else (if not (second == null)
              then set_next result_tail second >> set_prev second result_tail
              else pure tt)
            >> pure result)

module _ (case_sensitive : Bool) where
  -- `compare_strings(...) < 0`
  unfoldable pub less : Option Bytes → Option Bytes → Bool
  less s t = is_negative (compare_strings s t case_sensitive)

  -- The first loop of `sort_list`: whether it ends at the end of the list.
  unfoldable pub sorted_loop : ℕ → ℕ → Action Bool
  sorted_loop zero current_item = λ h. out_of_fuel
  sorted_loop (suc fuel) current_item =
      let rest = sorted_loop fuel in
      if current_item == null
      then pure true
      else next_of current_item >>= λ next.
          if next == null
          then pure true
          else string_of current_item >>= λ s.
              string_of next >>= λ t. if less s t then rest next else pure false

  -- The loop that merges, and what stands behind it.
  unfoldable pub merge_loop : ℕ → ℕ → ℕ → ℕ → ℕ → Action ℕ
  merge_loop zero result result_tail first second = λ h. out_of_fuel
  merge_loop (suc fuel) result result_tail first second =
      let rest = merge_loop fuel in
      if first == null || second == null
      then append_rest result result_tail first second
      else string_of first >>= λ s. string_of second >>= λ t.
          let smaller = if less s t then first else second in
          (if result == null
            then pure tt
            else set_next result_tail smaller >> set_prev smaller result_tail)
          >> (let result' = if result == null then smaller else result in
              if first == smaller
              then (next_of first >>= λ n. rest result' smaller n second)
              else next_of second >>= λ n. rest result' smaller first n)

  -- `sort_list`; the loops have fuel for an item each, and one more.
  unfoldable pub sort_list : ℕ → ℕ → Action ℕ
  sort_list zero list = λ h. out_of_fuel
  sort_list (suc fuel) list =
      let recur = sort_list fuel in
      if list == null
      then pure list
      else next_of list >>= λ next.
          if next == null
          then pure list
          else sorted_loop (suc fuel) list >>= λ sorted.
              if sorted
              then pure list
              else middle_loop (suc fuel) list list >>= λ second.
                  split_lists second
                  >> (recur list >>= λ first.
                      recur second >>= merge_loop (suc fuel) null null first)

  -- `sort_object`
  unfoldable pub sort_object : ℕ → ℕ → Action (Unit {0})
  sort_object fuel object =
      if object == null
      then pure tt
      else child_of object >>= λ child. sort_list fuel child >>= set_child object
