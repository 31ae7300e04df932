-- ===== src/Constraint/VariableSyncModule/Exchange.antt =====
-- One agent publishes its values and another integrates them
-- (constraintmodul/VariableSyncModule.cpp).
use alica_engine.Common.{
  ℕ, suc, ◌≤◌, ◌<◌, Bool, true, false, List, [], ◌∷◌, if◌then◌else◌, ◌==◌, ltb, ◌≡◌, refl, ap, ◌∙◌,
  arith, count, any, ◌||◌, ==-refl, Option, none, some,
}
use alica_engine.Common.Int.{ℤ, sub_ℕ}
use alica_engine.Constraint.ResultEntry.{
  Variant, unset, is_set, SolverVar, ValueEntry, ResultEntry, add_value, is_recent, communicatable,
  find_value, get_value, serialize_to, load_from, get_communicatable_results,
}
use alica_engine.Constraint.ResultEntry.Laws.{
  has_vid, seen, get_value-add_value, load_from-serialize_to,
}
use alica_engine.Constraint.VariableSyncModule.{
  SolverResult, VariableSyncModule, has_id, update_entry, insert_sorted, find_or_insert, add_vars,
  on_solver_result, find_entry, message_of, publish_content,
}

-- Variables that a message does not name read as before.
absent :
    (since earliest : ℤ) (w now : ℕ) (es : List ValueEntry) (r : ResultEntry)
    → count (has_vid w) es ≡ 0
    → get_value w earliest (add_vars now (communicatable since es) r) ≡ get_value w earliest r
unfolding communicatable add_vars
absent since earliest w now [] r h = refl
absent since earliest w now (e ∷ es) r h =
    let added : get_value w earliest
          (add_value e.vid (load_from (serialize_to e.var_value.val)) now r)
        ≡ (if e.vid == w
            then seen earliest
                (record { val = load_from (serialize_to e.var_value.val); last_update = now })
            else get_value w earliest r) =
      get_value-add_value earliest w e.vid (load_from (serialize_to e.var_value.val)) now r in
    ground (
      arith,
      absent since earliest w now es r,
      absent since earliest w now es
          (add_value e.vid (load_from (serialize_to e.var_value.val)) now r),
    )

abbrev Reads : ℤ → ℕ → ℕ → List SolverVar → ResultEntry → Variant → Type 0
Reads earliest w now vars r x =
    get_value w earliest (add_vars now vars r)
    ≡ seen earliest (record { val = x; last_update = now })

abbrev sent : ValueEntry → SolverVar
sent e = record { id = e.vid; value = serialize_to e.var_value.val }

here :
    (since earliest : ℤ) (w now : ℕ) (e : ValueEntry) (es : List ValueEntry) (r : ResultEntry)
    → (e.vid == w) ≡ true
    → count (has_vid w) es ≡ 0
    → e.var_value.val.type < 256
    → Reads earliest w now (sent e ∷ communicatable since es) r e.var_value.val
unfolding add_vars
here since earliest w now e es r eq none_left byte =
    absent since earliest w now es
      (add_value e.vid (load_from (serialize_to e.var_value.val)) now r) none_left
    ∙ get_value-add_value earliest w e.vid (load_from (serialize_to e.var_value.val)) now r
    ∙ ap
        (λ b.
          if b
          then seen earliest
              (record { val = load_from (serialize_to e.var_value.val); last_update = now })
          else get_value w earliest r)
        eq
    ∙ ap (λ x. seen earliest (record { val = x; last_update = now }))
        (load_from-serialize_to e.var_value.val byte)

carried_step :
    (since earliest : ℤ) (w now : ℕ) (e : ValueEntry) (es : List ValueEntry) (r : ResultEntry)
    → (b c : Bool) → (e.vid == w) ≡ c
    → ((r : ResultEntry)
        → count (has_vid w) es ≤ 1
        → is_set (find_value since w es) ≡ true
        → (find_value since w es).type < 256
        → Reads earliest w now (communicatable since es) r (find_value since w es))
    → (if c then suc (count (has_vid w) es) else count (has_vid w) es) ≤ 1
    → is_set (if c then if b then e.var_value.val else unset else find_value since w es) ≡ true
    → (if c then if b then e.var_value.val else unset else find_value since w es).type < 256
    → Reads earliest w now
        (if b then sent e ∷ communicatable since es else communicatable since es)
        r
        (if c then if b then e.var_value.val else unset else find_value since w es)
unfolding add_vars is_set
carried_step since earliest w now e es r true true eq ih once set byte =
    here since earliest w now e es r eq (omega arith) byte
carried_step since earliest w now e es r false true eq ih once set byte = absurd (ground arith)
carried_step since earliest w now e es r true false eq ih once set byte =
    ih (add_value e.vid (load_from (serialize_to e.var_value.val)) now r) once set byte
carried_step since earliest w now e es r false false eq ih once set byte = ih r once set byte

-- A value that the message carries reads as of now.
carried :
    (since earliest : ℤ) (w now : ℕ) (es : List ValueEntry) (r : ResultEntry)
    → count (has_vid w) es ≤ 1
    → is_set (find_value since w es) ≡ true
    → (find_value since w es).type < 256
    → Reads earliest w now (communicatable since es) r (find_value since w es)
unfolding communicatable find_value is_set
carried since earliest w now [] r once h byte = absurd (ground arith)
carried since earliest w now (e ∷ es) r once h byte =
    carried_step since earliest w now e es r (is_recent e.var_value.last_update since) (e.vid == w)
      refl (carried since earliest w now es) once h byte

sent_step :
    (since : ℤ) (a w : ℕ) (e : ValueEntry) (es : List ValueEntry) (b c : Bool)
    → (is_set (find_value since w es) ≡ true
        → message_of a (communicatable since es)
          ≡ some (record { sender_id = a; vars = communicatable since es }))
    → is_set (if c then if b then e.var_value.val else unset else find_value since w es) ≡ true
    → message_of a (if b then sent e ∷ communicatable since es else communicatable since es)
      ≡ some (record {
        sender_id = a;
        vars = if b then sent e ∷ communicatable since es else communicatable since es;
      })
unfolding message_of is_set
sent_step since a w e es true c ih set = refl
sent_step since a w e es false true ih set = absurd (ground arith)
sent_step since a w e es false false ih set = ih set

-- An agent with a recent value has a message to send.
message_of-communicatable :
    (since : ℤ) (a w : ℕ) (es : List ValueEntry)
    → is_set (find_value since w es) ≡ true
    → message_of a (communicatable since es)
      ≡ some (record { sender_id = a; vars = communicatable since es })
unfolding communicatable find_value is_set message_of
message_of-communicatable since a w [] set = absurd (ground arith)
message_of-communicatable since a w (e ∷ es) set =
    sent_step since a w e es (is_recent e.var_value.last_update since) (e.vid == w)
      (message_of-communicatable since a w es) set

first :
    (a : ℕ) (r : ResultEntry) (rs : List ResultEntry)
    → (r.id == a) ≡ true
    → find_entry a (r ∷ rs) ≡ some r
unfolding find_entry
first a r rs eq = ap (λ b. if b then some r else find_entry a rs) eq

later :
    (a : ℕ) (r : ResultEntry) (rs : List ResultEntry)
    → (r.id == a) ≡ false
    → find_entry a (r ∷ rs) ≡ find_entry a rs
unfolding find_entry
later a r rs ne = ap (λ b. if b then some r else find_entry a rs) ne

abbrev mapped : (ResultEntry → ResultEntry) → Option ResultEntry → Option ResultEntry
mapped f none = none
mapped f (some r) = some (f r)

update_step :
    (a : ℕ) (f : ResultEntry → ResultEntry) (r : ResultEntry) (rs : List ResultEntry) (b : Bool)
    → (r.id == a) ≡ b
    → (f r).id ≡ r.id
    → find_entry a (update_entry a f rs) ≡ mapped f (find_entry a rs)
    → find_entry a (if b then f r ∷ rs else r ∷ update_entry a f rs)
      ≡ mapped f (if b then some r else find_entry a rs)
update_step a f r rs true eq same ih = first a (f r) rs (ap (λ n. n == a) same ∙ eq)
update_step a f r rs false ne same ih = later a r (update_entry a f rs) ne ∙ ih

find_entry-update_entry :
    (a : ℕ) (f : ResultEntry → ResultEntry) (rs : List ResultEntry)
    → ((r : ResultEntry) → (f r).id ≡ r.id)
    → find_entry a (update_entry a f rs) ≡ mapped f (find_entry a rs)
unfolding find_entry update_entry
find_entry-update_entry a f [] same = refl
find_entry-update_entry a f (r ∷ rs) same =
    update_step a f r rs (r.id == a) refl (same r) (find_entry-update_entry a f rs same)

abbrev blank : ℕ → ResultEntry
blank a = record { id = a; values = [] }

insert_step :
    (a : ℕ) (r : ResultEntry) (rs : List ResultEntry) (b c : Bool)
    → (r.id == a) ≡ c
    → (c || any (has_id a) rs) ≡ false
    → (any (has_id a) rs ≡ false → find_entry a (insert_sorted (blank a) rs) ≡ some (blank a))
    → find_entry a (if b then blank a ∷ r ∷ rs else r ∷ insert_sorted (blank a) rs) ≡ some (blank a)
insert_step a r rs true c eq fresh ih = first a (blank a) (r ∷ rs) (==-refl a)
insert_step a r rs false true eq fresh ih = absurd (ground arith)
insert_step a r rs false false ne fresh ih = later a r (insert_sorted (blank a) rs) ne ∙ ih fresh

find_entry-insert_sorted :
    (a : ℕ) (rs : List ResultEntry)
    → any (has_id a) rs ≡ false
    → find_entry a (insert_sorted (blank a) rs) ≡ some (blank a)
unfolding insert_sorted
find_entry-insert_sorted a [] fresh = first a (blank a) [] (==-refl a)
find_entry-insert_sorted a (r ∷ rs) fresh =
    insert_step a r rs (ltb a r.id) (r.id == a) refl fresh (find_entry-insert_sorted a rs)

known_step :
    (a : ℕ) (r : ResultEntry) (rs : List ResultEntry) (b : Bool)
    → (b || any (has_id a) rs) ≡ true
    → (any (has_id a) rs ≡ true → (r' : ResultEntry) × (find_entry a rs ≡ some r'))
    → (r' : ResultEntry) × ((if b then some r else find_entry a rs) ≡ some r')
known_step a r rs true known ih = (r, refl)
known_step a r rs false known ih = ih known

find_entry-known :
    (a : ℕ) (rs : List ResultEntry)
    → any (has_id a) rs ≡ true
    → (r : ResultEntry) × (find_entry a rs ≡ some r)
unfolding find_entry
find_entry-known a [] known = absurd (ground arith)
find_entry-known a (r ∷ rs) known = known_step a r rs (r.id == a) known (find_entry-known a rs)

found_step :
    (a : ℕ) (rs : List ResultEntry) (b : Bool)
    → any (has_id a) rs ≡ b
    → (r : ResultEntry) × (find_entry a (if b then rs else insert_sorted (blank a) rs) ≡ some r)
found_step a rs true known = find_entry-known a rs known
found_step a rs false fresh = (blank a, find_entry-insert_sorted a rs fresh)

-- The receiver has an entry for each sender that it listens to.
find_or_insert-entry :
    (a : ℕ) (rs : List ResultEntry)
    → (r : ResultEntry) × (find_entry a (find_or_insert a rs) ≡ some r)
unfolding find_or_insert
find_or_insert-entry a rs = found_step a rs (any (has_id a) rs) refl

add_vars-id : (now : ℕ) (vars : List SolverVar) (r : ResultEntry) → (add_vars now vars r).id ≡ r.id
unfolding add_vars add_value
add_vars-id now [] r = refl
add_vars-id now (sv ∷ vars) r = add_vars-id now vars (add_value sv.id (load_from sv.value) now r)

abbrev value_at : ℕ → ℤ → Option ResultEntry → Variant
value_at w earliest none = unset
value_at w earliest (some r) = get_value w earliest r

-- The value of a variable that an agent is on record with.
abbrev pub value_of : ℕ → ℕ → ℤ → VariableSyncModule → Variant
value_of a w earliest m = value_at w earliest (find_entry a m.store)

opened :
    (ignored : ℕ → Bool) (now : ℕ) (msg : SolverResult) (m : VariableSyncModule)
    → (msg.sender_id == m.own_id) ≡ false
    → ignored msg.sender_id ≡ false
    → (on_solver_result ignored now msg m).store
      ≡ update_entry msg.sender_id (add_vars now msg.vars) (find_or_insert msg.sender_id m.store)
unfolding on_solver_result
opened ignored now msg m foreign heard =
    go (msg.sender_id == m.own_id) (ignored msg.sender_id) foreign heard
  where
    go :
        (b c : Bool)
        → b ≡ false
        → c ≡ false
        → (if b then m else if c then m else record m {
          store =
              update_entry msg.sender_id
                (add_vars now msg.vars)
                (find_or_insert msg.sender_id m.store);
        }).store
          ≡ update_entry msg.sender_id
              (add_vars now msg.vars)
              (find_or_insert msg.sender_id m.store)
    go true c h k = absurd (ground arith)
    go false true h k = absurd (ground arith)
    go false false h k = refl

received :
    (a : ℕ) (w : ℕ) (earliest : ℤ) (now : ℕ) (vars : List SolverVar) (store : List ResultEntry)
    (r : ResultEntry)
    → find_entry a (find_or_insert a store) ≡ some r
    → value_at w earliest
        (find_entry a (update_entry a (add_vars now vars) (find_or_insert a store)))
      ≡ get_value w earliest (add_vars now vars r)
received a w earliest now vars store r found =
    ap (value_at w earliest) (
      find_entry-update_entry a (add_vars now vars) (find_or_insert a store) (add_vars-id now vars))
    ∙ ap (λ o. value_at w earliest (mapped (add_vars now vars) o)) found

publishes :
    (now : ℕ) (a : VariableSyncModule) (r : ResultEntry) (w : ℕ)
    → a.running ≡ true
    → find_entry a.own_id a.store ≡ some r
    → is_set (get_value w (sub_ℕ now a.ttl4_communication) r) ≡ true
    → publish_content true now a
      ≡ some (record {
        sender_id = a.own_id;
        vars = communicatable (sub_ℕ now a.ttl4_communication) r.values;
      })
unfolding publish_content get_value get_communicatable_results
publishes now a r w running own set =
    let since = sub_ℕ now a.ttl4_communication in
    ap (λ b. if b then outcome since (find_entry a.own_id a.store) else none) running
    ∙ ap (outcome since) own
    ∙ message_of-communicatable since a.own_id w r.values set
  where
    outcome : ℤ → Option ResultEntry → Option SolverResult
    outcome since none = none
    outcome since (some r) = message_of a.own_id (get_communicatable_results since r [])

-- Sharing a value: when an agent that runs and may send holds a recent value of a variable, it has
-- a message to publish, and each other agent that integrates the message and does not ignore the
-- sender then reads that value for the sender, as of the time of receipt.
pub publish_content-on_solver_result :
    (a b : VariableSyncModule) (r : ResultEntry) (w now later : ℕ) (earliest : ℤ)
    (ignored : ℕ → Bool)
    → a.running ≡ true
    → find_entry a.own_id a.store ≡ some r
    → count (has_vid w) r.values ≤ 1
    → is_set (get_value w (sub_ℕ now a.ttl4_communication) r) ≡ true
    → (get_value w (sub_ℕ now a.ttl4_communication) r).type < 256
    → (a.own_id == b.own_id) ≡ false
    → ignored a.own_id ≡ false
    → (msg : SolverResult) × (publish_content true now a ≡ some msg)
      × (value_of a.own_id w earliest (on_solver_result ignored later msg b)
          ≡ seen earliest (record {
            val = get_value w (sub_ℕ now a.ttl4_communication) r;
            last_update = later;
          }))
unfolding get_value
publish_content-on_solver_result a b r w now later earliest ignored running own once set byte
      foreign heard =
    let since = sub_ℕ now a.ttl4_communication in
    let msg : SolverResult = record {
      sender_id = a.own_id;
      vars = communicatable since r.values;
    } in
    let (entry, found) = find_or_insert-entry a.own_id b.store in
    (
      msg,
      publishes now a r w running own set,
      ap (λ s. value_at w earliest (find_entry a.own_id s))
            (opened ignored later msg b foreign heard)
          ∙ received a.own_id w earliest later msg.vars b.store entry found
          ∙ carried since earliest w later r.values entry once set byte,
    )
