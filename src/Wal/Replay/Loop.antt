-- ===== src/Wal/Replay/Loop.antt =====
-- The rounds of the replay loop, and its fuel.
use concurrent_kv_store.Base.{
  ◌<◌, ◌≤◌, sym, Bool, true, false, ℕ, zero, suc, ◌+◌, ◌≤◌, ◌<◌, ◌≡◌, refl, sym, ap, ◌∙◌, Bool,
  true, false, ◌++◌, arith, Bytes, length, length-append, Bool-cases, ◌⊎◌, inl, inr, ok,
}
use concurrent_kv_store.BinaryIo.{Endian}
use concurrent_kv_store.Maps.{Map}
use concurrent_kv_store.Wal.Record.Parser.{apply_record}
use concurrent_kv_store.Wal.Replay.{
  Read, reads, stops, read_frame, replay_loop, bad_sequence, count_record,
}
use concurrent_kv_store.Wal.Replay.Frame.{Taken, read_frame-Taken}
use concurrent_kv_store.Wal.Types.{invalid_sequence, WalReplayStatus, WalReplayResult, ParsedRecord}

pub Read-cases {ℓ} :
    {A : Type ℓ} (r : Read A)
    → ((a : A) × (r ≡ reads a))
      ⊎ ((status : WalReplayStatus) × (stop : ℕ) × (r ≡ stops status stop))
Read-cases (reads a) = inl (a, refl)
Read-cases (stops status stop) = inr (status, stop, refl)

pub length-Taken :
    {host : Endian} {portable : Bool} {input : Bytes} {cursor : ℕ} {parsed : ParsedRecord}
    {sequence next : ℕ} {rest : Bytes}
    (t : Taken host portable input cursor parsed sequence next rest)
    → length input ≡ 8 + length t.bytes + length rest
length-Taken {rest} t =
    ap length t.input_eq
    ∙ omega (
      arith,
      length-append t.size (t.sum ++ (t.bytes ++ rest)),
      length-append t.sum (t.bytes ++ rest),
      length-append t.bytes rest,
      t.frame.size_width,
      t.frame.sum_width,
    )

module _ (host : Endian) (portable : Bool) where
  pub shorter :
      (input : Bytes) (cursor : ℕ) {parsed : ParsedRecord} {sequence next : ℕ} {rest : Bytes}
      → read_frame host portable input cursor ≡ reads (parsed, sequence, next, rest)
      → length rest + 9 ≤ length input
  shorter input cursor e =
      let t = read_frame-Taken host portable input cursor e in
      omega (arith, length-Taken t, t.frame.nonempty)

module _ (host : Endian) (portable : Bool) (offset : ℕ) (input : Bytes) (cursor : ℕ)
    (result : WalReplayResult) (store : Map) where
  -- A round that ends the loop.
  pub record Ends : Type 0 where
    pub status : WalReplayStatus
    pub stop : ℕ
    pub ends :
        (fuel : ℕ)
        → replay_loop (suc fuel) host portable offset input cursor result store
          ≡ ok (record result { status = status; stop_offset = stop }, store)

  -- A round that applies a record.
  pub record Applies : Type 0 where
    pub parsed : ParsedRecord
    pub sequence : ℕ
    pub next : ℕ
    pub rest : Bytes
    pub taken : read_frame host portable input cursor ≡ reads (parsed, sequence, next, rest)
    pub in_order : bad_sequence portable offset result sequence ≡ false
    pub goes_on :
        (fuel : ℕ)
        → replay_loop (suc fuel) host portable offset input cursor result store
          ≡ replay_loop fuel host portable offset rest next
              (count_record portable result sequence next)
              (apply_record parsed store)

  pub replay_loop-stops :
      {status : WalReplayStatus} {stop : ℕ} (fuel : ℕ)
      → read_frame host portable input cursor ≡ stops status stop
      → replay_loop (suc fuel) host portable offset input cursor result store
        ≡ ok (record result { status = status; stop_offset = stop }, store)
  unfolding replay_loop
  replay_loop-stops fuel e = rw (e, replay_loop)

  module _ {parsed : ParsedRecord} {sequence next : ℕ} {rest : Bytes}
      (e : read_frame host portable input cursor ≡ reads (parsed, sequence, next, rest)) where
    replay_loop-bad :
        (fuel : ℕ)
        → bad_sequence portable offset result sequence ≡ true
        → replay_loop (suc fuel) host portable offset input cursor result store
          ≡ ok (record result { status = invalid_sequence; stop_offset = cursor }, store)
    unfolding replay_loop
    replay_loop-bad fuel bad = rw (e, bad, replay_loop)

    pub replay_loop-reads :
        (fuel : ℕ)
        → bad_sequence portable offset result sequence ≡ false
        → replay_loop (suc fuel) host portable offset input cursor result store
          ≡ replay_loop fuel host portable offset rest next
              (count_record portable result sequence next)
              (apply_record parsed store)
    unfolding replay_loop
    replay_loop-reads fuel good = rw (e, good, replay_loop)

    taken_cases : Ends ⊎ Applies
    taken_cases = elim (Bool-cases (bad_sequence portable offset result sequence)) [
      | inl bad ↦ inl (record {
        status = invalid_sequence;
        stop = cursor;
        ends = λ fuel. replay_loop-bad fuel bad;
      })
      | inr good ↦ inr (record {
        parsed = parsed;
        sequence = sequence;
        next = next;
        rest = rest;
        taken = e;
        in_order = good;
        goes_on = λ fuel. replay_loop-reads fuel good;
      })
    ]

  pub replay_cases : Ends ⊎ Applies
  replay_cases = elim (Read-cases (read_frame host portable input cursor)) [
    | inl ((parsed, sequence, next, rest), e) ↦ taken_cases e
    | inr (status, stop, e) ↦
        inl (record { status = status; stop = stop; ends = λ fuel. replay_loop-stops fuel e })
  ]

module _ (host : Endian) (portable : Bool) (offset : ℕ) where
  -- With fuel above the length of the stream the loop leaves by one of its breaks.
  pub replay_loop-ok :
      (fuel : ℕ) (input : Bytes) (cursor : ℕ) (result : WalReplayResult) (store : Map)
      → length input < fuel
      → (p : WalReplayResult × Map) × (replay_loop fuel host portable offset input cursor result
            store
          ≡ ok p)
  replay_loop-ok zero input cursor result store h = absurd (omega arith)
  replay_loop-ok (suc fuel) input cursor result store h =
      elim (replay_cases host portable offset input cursor result store) [
        | inl end ↦ (_, end.ends fuel)
        | inr step ↦
            let (p, r) =
              replay_loop-ok fuel step.rest step.next
                (count_record portable result step.sequence step.next)
                (apply_record step.parsed store)
                (omega (arith, shorter host portable input cursor step.taken)) in
            (p, step.goes_on fuel ∙ r)
      ]

  -- The result does not depend on how much fuel there is.
  pub replay_loop_fuel :
      (fuel more : ℕ) (input : Bytes) (cursor : ℕ) (result : WalReplayResult) (store : Map)
      → length input < fuel
      → length input < more
      → replay_loop fuel host portable offset input cursor result store
        ≡ replay_loop more host portable offset input cursor result store
  replay_loop_fuel zero more input cursor result store h k = absurd (omega arith)
  replay_loop_fuel (suc fuel) zero input cursor result store h k = absurd (omega arith)
  replay_loop_fuel (suc fuel) (suc more) input cursor result store h k =
      elim (replay_cases host portable offset input cursor result store) [
        | inl end ↦ end.ends fuel ∙ sym (end.ends more)
        | inr step ↦
            let short = shorter host portable input cursor step.taken in
            step.goes_on fuel
            ∙ replay_loop_fuel fuel more step.rest step.next
                (count_record portable result step.sequence step.next)
                (apply_record step.parsed store) (omega (arith, short)) (omega (arith, short))
            ∙ sym (step.goes_on more)
      ]
