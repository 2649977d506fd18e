-- ===== src/Idempotency/Laws.antt =====
-- The idempotency records beside the table of requests and results
-- (src/axcalib/runtime/idempotency.py).
use axcalib.Prelude.{
  String, ◌≡◌, refl, sym, ◌∙◌, ap, true, not, ◌&&◌, Option, none, some, List, [], ◌∷◌, map, ◌==◌,
  string_eq, if◌then◌else◌, arith, Bool-cases, inl, inr, all, eq_iff,
}
use mathlib.Core.Path.{fun_ext}
use axcalib.Exec.{Result, ok, err}
use axcalib.Files.{Files, write, write_self}
use axcalib.Identifiers.{is_safe_id}
use axcalib.Idempotency.{
  Stage, running, retryable_failure, succeeded, Entry, IdempotencyError, invalid_key, conflict,
  raised, Codec, Store, execute, run, called, resume, decide_on, started, validated, put,
}
use axcalib.Idempotency.Memo.{
  finished_result, Known, Call, Table, table, known, ask, asks, executes, answer, remember, recall,
  consult, cons_answer,
}

-- The answer, the table and the world that a store stands for.
abbrev seen :
    {R J E W : Type 0}
    → Result (IdempotencyError E) R × Store J W
    → Result (IdempotencyError E) R × Table J × W
seen (a, s) = (a, table s.files, s.world)

table-write_twice :
    {J : Type 0} (name : String) (x y : Entry J) (k : Known J) (files : Files (Entry J))
    → known (some y) ≡ some k
    → table (write name y (write name x files)) ≡ write name k (table files)
unfolding write
table-write_twice name x y k files h =
    fun_ext (λ other. elim (Bool-cases (name == other)) [ inl e ↦ rw e h | inr e ↦ rw e refl ])

validated-ok : {E R : Type 0} (o : Option R) (r : R) → validated {E = E} o ≡ ok r → o ≡ some r
validated-ok none r h = absurd (cc h)
validated-ok (some x) r h = cc (h)

module _ {R J E W : Type 0} (codec : Codec R J E) where
  run-answer :
      (c : Call R E W) (s : Store J W) (o : Result E R × W)
      → seen (
          called codec
            (started c.key c.operation c.request_sha256 c.now)
            c.later
            (put codec (started c.key c.operation c.request_sha256 c.now) s).files
            o)
        ≡ answer codec c (table s.files) o
  run-answer c s (ok r, w) =
      ap (λ (t : Table J). (ok r, t, w))
        (table-write_twice (codec.file_name c.key) _ _ _ s.files refl)
  run-answer c s (err e, w) =
      ap (λ (t : Table J). (err (raised e), t, w))
        (table-write_twice (codec.file_name c.key) _ _ _ s.files refl)

  resume-recall :
      (c : Call R E W) (s : Store J W) (y : Entry J) (stage : Stage J)
      → seen (
          resume codec stage (started c.key c.operation c.request_sha256 c.now) c.later c.perform s)
        ≡ recall codec (finished_result stage) c (table s.files) s.world
  unfolding run
  resume-recall c s y running = run-answer c s (c.perform s.world)
  resume-recall c s y (retryable_failure name) = run-answer c s (c.perform s.world)
  resume-recall c s y (succeeded j) = refl

  decide_on-consult :
      (c : Call R E W) (s : Store J W) (o : Option (Entry J))
      → seen
          (decide_on codec o (started c.key c.operation c.request_sha256 c.now) c.later c.perform s)
        ≡ consult codec (known o) c (table s.files) s.world
  unfolding run
  decide_on-consult c s none = run-answer c s (c.perform s.world)
  decide_on-consult c s (some y) =
      elim (Bool-cases (y.operation == c.operation && y.request_sha256 == c.request_sha256)) [
        | inl e ↦ rw e (resume-recall c s y y.stage)
        | inr e ↦ rw e refl
      ]

  -- One request of the store is one request of the table.
  pub execute-ask :
      (c : Call R E W) (s : Store J W)
      → seen (execute codec c.key c.operation c.request_sha256 c.now c.later c.perform s)
        ≡ ask codec c (table s.files) s.world
  unfolding execute ask
  execute-ask c s = elim (Bool-cases (is_safe_id c.key)) [
    | inl e ↦ rw e (decide_on-consult c s (s.files (codec.file_name c.key)))
    | inr e ↦ rw e refl
  ]

  abbrev asks_behind :
      List (Call R E W)
      → Result (IdempotencyError E) R × Table J × W
      → List (Result (IdempotencyError E) R) × W
  asks_behind cs (a, t, w) = cons_answer codec a (asks codec cs t w)

  -- Any sequence of requests, of any keys and with any calls, gets the same answers from the
  -- files and leaves the same world as it does with the table of requests and results that
  -- the files stand for.
  pub executes-asks :
      (cs : List (Call R E W)) (s : Store J W)
      → executes codec cs s ≡ asks codec cs (table s.files) s.world
  unfolding executes asks
  executes-asks [] s = refl
  executes-asks (c ∷ cs) s =
      let (a, s') = execute codec c.key c.operation c.request_sha256 c.now c.later c.perform s in
      ap (cons_answer codec a) (executes-asks cs s') ∙ ap (asks_behind cs) (execute-ask c s)

  -- What a request gets whose name has a result on record.
  abbrev pub settled_answer : Known J → Option R → Call R E W → Result (IdempotencyError E) R
  settled_answer k found c =
      if not (is_safe_id c.key)
      then err invalid_key
      else if not (k.operation == c.operation && k.request_sha256 == c.request_sha256)
      then err conflict
      else validated found

  ask-settled :
      (c : Call R E W) (k : Known J) (j : J) (t : Table J) (w : W)
      → t (codec.file_name c.key) ≡ some k
      → k.result ≡ some j
      → ask codec c t w ≡ (settled_answer k (codec.validate j) c, t, w)
  unfolding ask
  ask-settled c k j t w h r = elim (Bool-cases (is_safe_id c.key)) [
    | inl e ↦
        elim (Bool-cases (k.operation == c.operation && k.request_sha256 == c.request_sha256)) [
          | inl f ↦ rw (e, h, f, r) refl
          | inr f ↦ rw (e, h, f) refl
        ]
    | inr e ↦ rw e refl
  ]

  asks-settled :
      (name : String) (k : Known J) (j : J) (t : Table J) (w : W) (cs : List (Call R E W))
      → t name ≡ some k
      → k.result ≡ some j
      → all (λ (c : Call R E W). codec.file_name c.key == name) cs ≡ true
      → asks codec cs t w ≡ (map (settled_answer k (codec.validate j)) cs, w)
  unfolding asks
  asks-settled name k j t w [] h r a = refl
  asks-settled name k j t w (c ∷ cs) h r a =
      let here : codec.file_name c.key ≡ name =
        ground (arith, eq_iff (codec.file_name c.key) name) in
      ap (asks_behind cs) (ask-settled c k j t w (ap t here ∙ h) r)
      ∙ ap (cons_answer codec (settled_answer k (codec.validate j) c))
          (asks-settled name k j t w cs h r (ground arith))

  -- A success is on record.
  abbrev IsKept : Call R E W → R → Option (Known J) → Type 0
  IsKept c r o =
      (k : Known J) × (j : J) × (o ≡ some k)
      × (k.operation ≡ c.operation)
      × (k.request_sha256 ≡ c.request_sha256)
      × (k.result ≡ some j)
      × (codec.validate j ≡ some r)

  answer-IsKept :
      (c : Call R E W) (t : Table J) (r : R) (t' : Table J) (w' : W) (o : Result E R × W)
      → codec.validate (codec.dump r) ≡ some r
      → answer codec c t o ≡ (ok r, t', w')
      → IsKept c r (t' (codec.file_name c.key))
  answer-IsKept c t r t' w' (ok x, w) v h =
      let same : x ≡ r = cc (h) in
      let kept : remember codec c (some (codec.dump x)) t ≡ t' =
        ap (λ (p : Result (IdempotencyError E) R × Table J × W). p.1) h in
      (
        record {
          operation = c.operation;
          request_sha256 = c.request_sha256;
          result = some (codec.dump x);
        },
        codec.dump x,
        sym (ap (λ (f : Table J). f (codec.file_name c.key)) kept)
            ∙ write_self (codec.file_name c.key) _ t,
        refl,
        refl,
        refl,
        rw same v,
      )
  answer-IsKept c t r t' w' (err e, w) v h = absurd (cc h)

  recall-IsKept :
      (c : Call R E W) (t : Table J) (w : W) (r : R) (t' : Table J) (w' : W) (k : Known J)
      (o : Option J)
      → codec.validate (codec.dump r) ≡ some r
      → t (codec.file_name c.key) ≡ some k
      → k.operation ≡ c.operation
      → k.request_sha256 ≡ c.request_sha256
      → k.result ≡ o
      → recall codec o c t w ≡ (ok r, t', w')
      → IsKept c r (t' (codec.file_name c.key))
  recall-IsKept c t w r t' w' k none v f p q g h = answer-IsKept c t r t' w' (c.perform w) v h
  recall-IsKept c t w r t' w' k (some j) v f p q g h =
      let kept : t ≡ t' = ap (λ (x : Result (IdempotencyError E) R × Table J × W). x.1) h in
      let found : validated (codec.validate j) ≡ ok r =
        ap (λ (x : Result (IdempotencyError E) R × Table J × W). x.0) h in
      (
        k,
        j,
        sym (ap (λ (u : Table J). u (codec.file_name c.key)) kept) ∙ f,
        p,
        q,
        g,
        validated-ok (codec.validate j) r found,
      )

  consult-IsKept :
      (c : Call R E W) (t : Table J) (w : W) (r : R) (t' : Table J) (w' : W) (o : Option (Known J))
      → codec.validate (codec.dump r) ≡ some r
      → t (codec.file_name c.key) ≡ o
      → consult codec o c t w ≡ (ok r, t', w')
      → IsKept c r (t' (codec.file_name c.key))
  consult-IsKept c t w r t' w' none v f h = answer-IsKept c t r t' w' (c.perform w) v h
  consult-IsKept c t w r t' w' (some k) v f h =
      elim (Bool-cases (k.operation == c.operation && k.request_sha256 == c.request_sha256)) [
        | inl e ↦
            recall-IsKept c t w r t' w' k k.result v f
              (ground (arith, eq_iff k.operation c.operation))
              (ground (arith, eq_iff k.request_sha256 c.request_sha256)) refl (rw e at h)
        | inr e ↦ absurd (cc (rw e at h))
      ]

  ask-IsKept :
      (c : Call R E W) (t : Table J) (w : W) (r : R) (t' : Table J) (w' : W)
      → codec.validate (codec.dump r) ≡ some r
      → ask codec c t w ≡ (ok r, t', w')
      → IsKept c r (t' (codec.file_name c.key))
  unfolding ask
  ask-IsKept c t w r t' w' v h = elim (Bool-cases (is_safe_id c.key)) [
    | inl e ↦ consult-IsKept c t w r t' w' (t (codec.file_name c.key)) v refl (rw e at h)
    | inr e ↦ absurd (cc (rw e at h))
  ]

  -- What a later request under the same name gets.
  abbrev pub later_answer : Call R E W → R → Call R E W → Result (IdempotencyError E) R
  later_answer c r d =
      if not (is_safe_id d.key)
      then err invalid_key
      else if not (c.operation == d.operation && c.request_sha256 == d.request_sha256)
      then err conflict
      else ok r

  settled-later :
      (c d : Call R E W) (k : Known J) (r : R) (found : Option R)
      → k.operation ≡ c.operation
      → k.request_sha256 ≡ c.request_sha256
      → found ≡ some r
      → settled_answer k found d ≡ later_answer c r d
  settled-later c d k r found p q e = ground (arith, p, q, e)

  -- Let a request have returned a result that is read back as it was written. Any later
  -- requests under the same file name leave the world as it is: one with a key that is not
  -- safe is refused, one for another operation or request is a conflict, and every other gets
  -- that result.
  pub executed_once :
      (c : Call R E W) (r : R) (s s' : Store J W) (cs : List (Call R E W))
      → codec.validate (codec.dump r) ≡ some r
      → execute codec c.key c.operation c.request_sha256 c.now c.later c.perform s ≡ (ok r, s')
      → all (λ (d : Call R E W). codec.file_name d.key == codec.file_name c.key) cs ≡ true
      → executes codec cs s' ≡ (map (later_answer c r) cs, s'.world)
  executed_once c r s s' cs v h a =
      let (k, j, f, p, q, g, found) =
        ask-IsKept c (table s.files) s.world r (table s'.files) s'.world v
          (sym (execute-ask c s) ∙ ap seen h) in
      executes-asks cs s'
      ∙ asks-settled (codec.file_name c.key) k j (table s'.files) s'.world cs f g a
      ∙ ap (λ (f : Call R E W → Result (IdempotencyError E) R). (map f cs, s'.world))
          (fun_ext (λ d. settled-later c d k r (codec.validate j) p q found))
