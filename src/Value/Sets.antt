-- ===== src/Value/Sets.antt =====
-- `cardinality` and `bounds` of inquint/src/value.rs: the sizes of concrete and symbolic sets.
pub mod Product
use inquint.Prelude.{
  ℕ, zero, suc, ◌+◌, ◌*◌, ◌^◌, Bool, true, false, ◌&&◌, List, [], ◌∷◌, ◌++◌, length, ltb, leb, ◌==◌,
  if◌then◌else◌,
}
use inquint.Prelude.{ℤ, pos, negsuc, ◌+ℤ◌, ◌-ℤ◌, leb_ℤ, pos_part, Result, ok, err, ◌>>=◌}
use inquint.Errors.{QuintError, overflow, unsupported, panic}
use inquint.Value.{ValueData, Values, Fields, Entries, to_list, to_pairs}

abbrev pub i64_min : ℤ
i64_min = negsuc 9223372036854775807

abbrev pub i64_max : ℤ
i64_max = pos 9223372036854775807

abbrev pub u64_mod : ℕ
u64_mod = 18446744073709551616

abbrev pub fits_i64 : ℤ → Bool
fits_i64 n = leb_ℤ i64_min n && leb_ℤ n i64_max

-- What the checked operations on `u64` return for the exact result.
abbrev pub checked_u64 : ℕ → Result QuintError ℕ
checked_u64 n = if ltb n u64_mod then ok n else err overflow

-- `end.checked_sub(start)`, `checked_add(1)` and `u64::try_from`.
unfoldable pub interval_cardinality : ℤ → ℤ → Result QuintError ℕ
interval_cardinality start end =
    let d = end -ℤ start in
    let n = d +ℤ pos 1 in
    if fits_i64 d && (fits_i64 n && leb_ℤ (pos 0) n) then ok (pos_part n) else err overflow

-- `u32::try_from(exp)` and `base.checked_pow(exp)`.
unfoldable pub checked_pow : ℕ → ℕ → Result QuintError ℕ
checked_pow base exp = if ltb exp 4294967296 then checked_u64 (base ^ exp) else err overflow

abbrev pub field_count : Fields → ℕ
field_count Fields.no_fields = 0
field_count (Fields.field k v fs) = suc (field_count fs)

unfoldable mutual
  pub cardinality : ValueData → Result QuintError ℕ
  cardinality (ValueData.set vs) = ok (length (to_list vs))
  cardinality (ValueData.tuple vs) = ok (length (to_list vs))
  cardinality (ValueData.list vs) = ok (length (to_list vs))
  cardinality (ValueData.rec fs) = ok (field_count fs)
  cardinality (ValueData.map es) = ok (length (to_pairs es))
  cardinality (ValueData.interval start end) = interval_cardinality start end
  cardinality (ValueData.cross_product sets) = product_cardinality sets 1
  cardinality (ValueData.power_set base) = do n ← cardinality base; checked_pow 2 n
  cardinality (ValueData.map_set domain range) = do
    d ← cardinality domain
    r ← cardinality range
    checked_pow r d
  cardinality ValueData.infinite_int = err unsupported
  cardinality ValueData.infinite_nat = err unsupported
  cardinality v = err panic

  -- The `try_fold` over the sets of a cross product.
  pub product_cardinality : Values → ℕ → Result QuintError ℕ
  product_cardinality Values.nil acc = ok acc
  product_cardinality (Values.cons s sets) acc = do
    n ← cardinality s
    acc' ← checked_u64 (acc * n)
    product_cardinality sets acc'

-- The cardinality of each set.
unfoldable pub cardinalities : Values → Result QuintError (List ℕ)
cardinalities Values.nil = ok []
cardinalities (Values.cons s sets) = do n ← cardinality s; ns ← cardinalities sets; ok (n ∷ ns)

-- `n` times the list.
abbrev pub repeat : ℕ → List ℕ → List ℕ
repeat zero bs = []
repeat (suc n) bs = bs ++ repeat n bs

unfoldable pub bounds : ValueData → Result QuintError (List ℕ)
bounds (ValueData.set vs) = ok (length (to_list vs) ∷ [])
bounds (ValueData.interval start end) = do n ← interval_cardinality start end; ok (n ∷ [])
bounds (ValueData.cross_product sets) = cardinalities sets
bounds (ValueData.power_set base) = do
  n ← cardinality base
  if leb 63 n then err unsupported else ok (2 ^ n ∷ [])
bounds (ValueData.map_set domain range) = do
  d ← cardinality domain
  bs ← bounds range
  ok (repeat d bs)
bounds ValueData.infinite_int = err unsupported
bounds ValueData.infinite_nat = err unsupported
bounds v = err panic
