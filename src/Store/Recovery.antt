-- ===== src/Store/Recovery.antt =====
-- src/picket/persistence/store.py: what `recover_abandoned` does to the ledger.
use picket_mcp.Prelude.{
  ℕ, ◌+◌, ◌<◌, Text, ◌≡◌, ◌↔◌, refl, ap, ◌&&◌, Bool, true, Option, none, some, List, [], ◌∷◌, arith,
  text_eq_iff, count_where, update_where-id, count_where-update_where,
  count_where-update_where_self, count_where-update_where_off,
}
use picket_mcp.Store.Fire.{Fire, FireStatus, running, failed, is_running}
use picket_mcp.Store.History.{
  lease_lost, before, in_scope, is_abandoned, recover_row, recover_abandoned,
}
use picket_mcp.Store.Claim.{waits}
use picket_mcp.Store.Rowwise.{Rowwise, update_where-Rowwise}

before_cases :
    (lease : Option ℕ) (now : ℕ)
    → before lease now ≡ true
    → (until : ℕ) × (lease ≡ some until) × (until < now)
before_cases none now h = absurd (ground arith)
before_cases (some l) now h = (l, refl, ground arith)

is_running_eq : (st : FireStatus) → is_running st ≡ true → st ≡ running
is_running_eq st h = ground arith

before-some :
    (lease : Option ℕ) (now until : ℕ) → lease ≡ some until → until < now → before lease now ≡ true
before-some lease now until e p = rw e (ground arith)

all_three : (a b c : Bool) → a ≡ true → b ≡ true → c ≡ true → (a && b && c) ≡ true
all_three a b c p q r = ground arith

module _ {V : Type 0} where
  abbrev pub runs : Fire V → Bool
  runs row = is_running row.status

  -- Recovery at a time takes as many rows out of `running` as it reports, makes no fire wait again
  -- (so nothing is run twice), and leaves nothing to a second recovery at the same time.
  pub recover_abandoned_lem :
      (now : ℕ) (w : Option Text) (fires : List (Fire V))
      → let (after, n) = recover_abandoned now w fires in
        (n + count_where runs after ≡ count_where runs fires)
        × ((x : Text) → count_where (waits x) after ≡ count_where (waits x) fires)
        × (recover_abandoned now w after ≡ (after, 0))
  unfolding recover_abandoned
  recover_abandoned_lem now w fires =
      let test = is_abandoned {V = V} now w in
      let none_left = count_where-update_where_self test (recover_row now) fires (λ r. refl) in
      (
        count_where-update_where_off runs test (recover_row now) fires (λ r. refl)
            (λ r h. ground arith),
        λ x. count_where-update_where (waits x) test (recover_row now) fires (λ r h. ground arith),
        λ i. (update_where-id test (recover_row now) _ none_left i, none_left i),
      )

  -- Whether a call with this watch id is about a fire: one without a watch id is about all.
  abbrev pub Covers : Option Text → Fire V → Type 0
  Covers (some (c ∷ s)) row = row.watch_id ≡ c ∷ s
  Covers _ row = Unit

  -- A fire that runs under a lease that has run out.
  pub record IsAbandoned (now : ℕ) (w : Option Text) (row : Fire V) : Type 0 where
    pub status : row.status ≡ running
    pub until : ℕ
    pub lease : row.lease_expires_at ≡ some until
    pub over : until < now
    pub covered : Covers w row

  -- The fire has failed now, with its lease given up and the error of a crash.
  pub record IsFailedFrom (now : ℕ) (old new : Fire V) : Type 0 where
    pub status : new.status ≡ failed
    pub lease : new.lease_expires_at ≡ none
    pub error : new.error ≡ some lease_lost
    pub ended : new.ended_at ≡ some now
    pub id : new.fire_id ≡ old.fire_id
    pub watch : new.watch_id ≡ old.watch_id
    pub key : new.idem_key ≡ old.idem_key

  pub record RecoveredRow (now : ℕ) (w : Option Text) (old new : Fire V) : Type 0 where
    pub hit : IsAbandoned now w old → IsFailedFrom now old new
    pub miss : ¬ IsAbandoned now w old → new ≡ old

  in_scope-Covers : (w : Option Text) (row : Fire V) → (in_scope w row ≡ true) ↔ Covers w row
  in_scope-Covers none row = (λ h. tt, λ h. refl)
  in_scope-Covers (some []) row = (λ h. tt, λ h. refl)
  in_scope-Covers (some (c ∷ s)) row = text_eq_iff row.watch_id (c ∷ s)

  is_abandoned-IsAbandoned :
      (now : ℕ) (w : Option Text) (row : Fire V)
      → is_abandoned now w row ≡ true
      → IsAbandoned now w row
  is_abandoned-IsAbandoned now w row h =
      let (until, lease, over) = before_cases row.lease_expires_at now (ground arith) in
      record {
        status = is_running_eq row.status (ground arith);
        until = until;
        lease = lease;
        over = over;
        covered = (in_scope-Covers w row).0 (ground arith);
      }

  IsAbandoned-is_abandoned :
      (now : ℕ) (w : Option Text) (row : Fire V)
      → IsAbandoned now w row
      → is_abandoned now w row ≡ true
  IsAbandoned-is_abandoned now w row a =
      let covered = (in_scope-Covers w row).1 a.covered in
      let over = before-some row.lease_expires_at now a.until a.lease a.over in
      all_three _ _ _ (ap (λ st. is_running st) a.status) over covered

  -- recover_abandoned fails each running fire of the watch, or of any watch if none is named, whose
  -- lease ran out before now, gives up its lease and records the crash and the end, leaves every other
  -- row as it was, and reports how many rows it took out of the status running.
  pub recover_abandoned-RecoveredRow :
      (now : ℕ) (w : Option Text) (fires : List (Fire V))
      → let (after, n) = recover_abandoned now w fires in
        Rowwise (RecoveredRow now w) fires after
        × (n + count_where runs after ≡ count_where runs fires)
  recover_abandoned-RecoveredRow now w fires = (
    unfold recover_abandoned in
        update_where-Rowwise (RecoveredRow now w) (is_abandoned now w) (recover_row now) fires
          (λ r h. record {
            hit = λ a. record {
              status = refl;
              lease = refl;
              error = refl;
              ended = refl;
              id = refl;
              watch = refl;
              key = refl;
            };
            miss = λ n. absurd (n (is_abandoned-IsAbandoned now w r h));
          })
          (λ r h. record {
            hit = λ a. absurd (ground (arith, IsAbandoned-is_abandoned now w r a, h));
            miss = λ n. refl;
          }),
    (recover_abandoned_lem now w fires).0,
  )
