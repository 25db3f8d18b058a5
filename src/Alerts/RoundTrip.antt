-- ===== src/Alerts/RoundTrip.antt =====
-- The funds of a freeze or unfreeze survive bsv-regtest/alerts/wire.go's encoding and decoding.
use chaos_test.Common.{
  ℕ, suc, ◌+◌, ◌*◌, ◌/◌, ◌%◌, ◌^◌, ◌<◌, ◌≡◌, ◌⊎◌, refl, sym, ap, ◌∙◌, false, not, ◌&&◌, ◌||◌,
  Option, some, List, [], ◌∷◌, ◌++◌, arith, ◌==◌, if◌then◌else◌, length, length-append, take, drop,
  drop-drop, drop-append_length, All,
}
use chaos_test.Alerts.{Bytes, Fund, type_freeze_utxo, type_unfreeze_utxo}
use chaos_test.Alerts.Hex.{
  decode_hex, encode_hex, read_le, put_le, AreBytes, decode_hex-encode_hex, read_le-put_le,
}
use chaos_test.Alerts.Funds.{
  ModelFund, ok, model_of, serialize_all, funds_payload, slice, is_set, read_fund, read_funds,
  funds, funds_of, decode_funds,
}

-- The documented layout of a fund: the id, three integers of 64 bits, and a byte.
abbrev pub layout : ModelFund → Bytes
layout m =
    m.transaction_out_id
    ++ (put_le 8 m.model_vout
        ++ (put_le 8 m.height_start
            ++ (put_le 8 m.height_end ++ (if m.policy_expires then 1 else 0) ∷ [])))

-- A fund whose id is 32 bytes in lower-case hex and whose numbers fit.
pub record IsCanonical (f : Fund) : Type 0 where
  pub id : Bytes
  pub sized : length id ≡ 32
  pub real : AreBytes id
  pub text : f.tx_id ≡ encode_hex id
  pub small_vout : f.vout < 2 ^ 32
  pub small_start : f.start < 2 ^ 64
  pub small_stop : f.stop < 2 ^ 64

take-append : (xs ys : Bytes) → take (length xs) (xs ++ ys) ≡ xs
take-append [] ys = refl
take-append (x ∷ xs) ys = ap (◌∷◌ x) (take-append xs ys)

module _ (xs ys : Bytes) (n : ℕ) (sized : length xs ≡ n) where
  taken : take n (xs ++ ys) ≡ xs
  taken = ap (λ k. take k (xs ++ ys)) (sym sized) ∙ take-append xs ys

  dropped : (k : ℕ) → drop (n + k) (xs ++ ys) ≡ drop k ys
  dropped k =
      sym (drop-drop k n (xs ++ ys))
      ∙ ap (drop k) (ap (λ j. drop j (xs ++ ys)) (sym sized) ∙ drop-append_length xs ys)

-- What stands behind the id.
abbrev tail_of : Fund → Bytes
tail_of f =
    put_le 8 f.vout ++ (put_le 8 f.start ++ (put_le 8 f.stop ++ (if f.expires then 1 else 0) ∷ []))

module _ (f : Fund) (c : IsCanonical f) where
  at_vout : read_le (slice 32 8 (c.id ++ tail_of f)) ≡ f.vout
  unfolding put_le
  at_vout =
      ap (λ bs. read_le (take 8 bs)) (dropped c.id (tail_of f) 32 c.sized 0)
      ∙ read_le-put_le 8 f.vout (omega (arith, c.small_vout))

  at_start : read_le (slice 40 8 (c.id ++ tail_of f)) ≡ f.start
  unfolding put_le
  at_start =
      ap (λ bs. read_le (take 8 bs)) (dropped c.id (tail_of f) 32 c.sized 8)
      ∙ read_le-put_le 8 f.start (omega (arith, c.small_start))

  at_stop : read_le (slice 48 8 (c.id ++ tail_of f)) ≡ f.stop
  unfolding put_le
  at_stop =
      ap (λ bs. read_le (take 8 bs)) (dropped c.id (tail_of f) 32 c.sized 16)
      ∙ read_le-put_le 8 f.stop (omega (arith, c.small_stop))

  at_flag : is_set (drop 56 (c.id ++ tail_of f)) ≡ f.expires
  unfolding put_le is_set
  at_flag = ap is_set (dropped c.id (tail_of f) 32 c.sized 24) ∙ ground arith

  read_fund-layout : read_fund (layout (model_of f c.id)) ≡ f
  unfolding read_fund model_of
  read_fund-layout =
      rw (taken c.id (tail_of f) 32 c.sized, sym c.text, at_vout, at_start, at_stop, at_flag)
        (ap (λ v. record f { vout = v }) (omega (arith, c.small_vout)))

  length-layout : length (layout (model_of f c.id)) ≡ 57
  unfolding put_le model_of
  length-layout = omega (arith, length-append c.id (tail_of f), c.sized)

  read_hex : decode_hex f.tx_id ≡ some c.id
  read_hex = ap decode_hex c.text ∙ decode_hex-encode_hex c.id c.real

-- What the records of some funds come to.
record Written (serialize : ModelFund → Bytes) (fs : List Fund) : Type 0 where
  payload : Bytes
  built : serialize_all serialize fs ≡ ok payload
  sized : length payload ≡ 57 * length fs
  back : read_funds (length fs) payload ≡ fs

module _ (serialize : ModelFund → Bytes) (lays : (m : ModelFund) → serialize m ≡ layout m) where
  written : (fs : List Fund) → All IsCanonical fs → Written serialize fs
  unfolding serialize_all read_funds
  written [] h = record { payload = []; built = refl; sized = refl; back = refl }
  written (f ∷ fs) (c, cs) =
      let rest : Written serialize fs = written fs cs in
      let block : Bytes = layout (model_of f c.id) in
      let long : length block ≡ 57 = length-layout f c in
      record {
        payload = block ++ rest.payload;
        built = rw (serialize_all, read_hex f c, c.sized, rest.built, lays (model_of f c.id)) refl;
        sized = omega (arith, length-append block rest.payload, long, rest.sized);
        back =
            rw
              (
                taken block rest.payload 57 long,
                dropped block rest.payload 57 long 0,
                rest.back,
                read_fund-layout f c,
              )
              refl;
      }

  -- If the library lays a fund out as documented, then the payload that is built for one or more
  -- funds, whose ids are 32 bytes in lower-case hex and whose numbers fit, is decoded to the same
  -- funds from any message that the library parses to that payload and to a freeze or an unfreeze.
  pub decode_funds-funds_payload :
      (parse : Bytes → Option (ℕ × Bytes)) (wire raw : Bytes) (typ : ℕ) (f : Fund) (fs : List Fund)
      → All IsCanonical (f ∷ fs)
      → funds_payload serialize (f ∷ fs) ≡ ok raw
      → parse wire ≡ some (typ, raw)
      → (typ ≡ type_freeze_utxo) ⊎ (typ ≡ type_unfreeze_utxo)
      → decode_funds parse wire ≡ funds (f ∷ fs)
  unfolding decode_funds funds_of funds_payload
  decode_funds-funds_payload parse wire raw typ f fs h built parsed known =
      let w : Written serialize (f ∷ fs) = written (f ∷ fs) h in
      let same : raw ≡ w.payload = ground (arith, w.built, built) in
      let n : length raw ≡ 57 * suc (length fs) = ap length same ∙ w.sized in
      let k : length raw / 57 ≡ length (f ∷ fs) = omega (arith, n) in
      let full : (length raw == 0 || not (length raw % 57 == 0)) ≡ false = ground (arith, n) in
      let typed : (not (typ == type_freeze_utxo) && not (typ == type_unfreeze_utxo)) ≡ false =
        ground arith in
      rw (decode_funds, parsed, funds_of, typed, full, k, same) (ap funds w.back)
