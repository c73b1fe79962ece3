-- ===== src/Worker/Changes.antt =====
-- A claim, a burial and an outcome against the tables' invariant.
use flick_drop.Base.{
  ℕ, suc, ◌+◌, ◌≤◌, ◌<◌, ◌≡◌, refl, sym, ap, ◌∙◌, subst, String, false, ◌&&◌, Option, none, some,
  List, [], ◌∷◌, ◌++◌, arith, some-injective, nat_beq, ◌==◌, string_eq, find, insert, find-insert,
  beq_self,
}
use flick_drop.Worker.Tables.{
  processing, dead, running, Receipt, Attempt, DeadLetter, Db, is_running, update_where, finish_row,
  find_attempt, finish_running, update_receipt, claim_receipt, settle_receipt, insert_attempt,
  upsert_dead_letter, coalesce,
}
use flick_drop.Worker.Store.{result_of, state_of, completed_of}
use flick_drop.Worker.Moves.{claimed, buried, finished}
use flick_drop.Worker.Counts.{
  count_running, count_rows_of, count_running-append, count_rows_of-append, count_running-finish,
  count_running-finish_one, count_rows_of-update, update_where-IdsBelow, append-IdsBelow,
}
use flick_drop.Worker.Invariant.{IsValidDb, IsValidJob, slots, Lettered, one_job-IsValid}

-- One more running row of a job that had none.
claimed_job :
    (job j : String) (o : Option Receipt) (r r' : Receipt) (active rows active' rows' : ℕ)
    (l : Option DeadLetter)
    → IsValidJob job o active rows l
    → o ≡ some r
    → active ≡ 0
    → r'.job_id ≡ r.job_id
    → r'.state ≡ processing
    → r'.attempts ≡ r.attempts + 1
    → active' ≡ active + 1
    → rows' ≡ rows + 1
    → IsValidJob job (some r') active' rows' l
claimed_job job j none r r' a b a' b' l v e z k s n f g = absurd (cc e)
claimed_job job j (some q) r r' a b a' b' l (i, h, m, w) e z k s n f g =
    (ground (arith, k, i, e), rw s (omega arith), ground (arith, e, n, g, m), rw s tt)

other_append :
    (job j : String) (rows : List Attempt) (a : Attempt)
    → a.job_id ≡ job
    → (job == j) ≡ false
    → (count_running j (rows ++ a ∷ []) ≤ count_running j rows)
      × (count_rows_of j (rows ++ a ∷ []) ≡ count_rows_of j rows)
other_append job j rows a h e =
    rw (count_running-append j rows a, count_rows_of-append j rows a, h, e)
      (omega arith, omega arith)

same_append :
    (job : String) (rows : List Attempt) (a : Attempt)
    → a.job_id ≡ job
    → a.result ≡ running
    → (count_running job (rows ++ a ∷ []) ≡ count_running job rows + 1)
      × (count_rows_of job (rows ++ a ∷ []) ≡ count_rows_of job rows + 1)
same_append job rows a h e =
    rw (count_running-append job rows a, count_rows_of-append job rows a, h, e, beq_self job)
      (refl, refl)

pub claimed-IsValid :
    (job : String) (r : Receipt) (now : ℕ) (d : Db)
    → find job d.receipts ≡ some r
    → count_running job d.attempts ≡ 0
    → IsValidDb d
    → IsValidDb (claimed job (r.attempts + 1) now d)
unfolding claimed claim_receipt insert_attempt
claimed-IsValid job r now d f z v =
    rw (claimed, insert_attempt, claim_receipt, update_receipt, f)
      (one_job-IsValid job _ _ d.dead_letters (suc d.next_id) d
        (claimed_job job job (find job d.receipts) r
          (record r {
            state = processing;
            attempts = r.attempts + 1;
            updated_at = now;
            last_error = none;
          })
          _ _ _ _ _ (v.jobs job) f z refl refl refl (same_append job d.attempts _ refl refl).0
          (same_append job d.attempts _ refl refl).1)
        (λ j e. (
          (other_append job j d.attempts _ refl e).0,
          (other_append job j d.attempts _ refl e).1,
          refl,
        ))
        (append-IdsBelow d.next_id d.attempts _ v.ids refl) v)

-- A job with a new state, as many attempts, and running ones within the state's slots.
settled_job :
    (job : String) (o : Option Receipt) (r r' : Receipt) (active rows active' rows' : ℕ)
    (l l' : Option DeadLetter)
    → IsValidJob job o active rows l
    → o ≡ some r
    → r'.job_id ≡ r.job_id
    → r'.attempts ≡ r.attempts
    → active' ≤ slots r'.state
    → rows' ≡ rows
    → Lettered r'.state r'.last_error l'
    → IsValidJob job (some r') active' rows' l'
settled_job job none r r' a b a' b' l l' v e k n h g w = absurd (cc e)
settled_job job (some q) r r' a b a' b' l l' (i, _, m, _) e k n h g w =
    (ground (arith, k, i, e), h, ground (arith, e, n, g, m), w)

pub slots_of :
    (job : String) (o : Option Receipt) (r : Receipt) (active rows : ℕ) (l : Option DeadLetter)
    → IsValidJob job o active rows l
    → o ≡ some r
    → active ≤ slots r.state
slots_of job none r a b l v e = absurd (cc e)
slots_of job (some q) r a b l (_, h, _, _) e =
    subst (λ x. a ≤ slots x.state) (some-injective q r e) h

pub key_of :
    (job : String) (o : Option Receipt) (r : Receipt) (active rows : ℕ) (l : Option DeadLetter)
    → IsValidJob job o active rows l
    → o ≡ some r
    → r.job_id ≡ job
key_of job none r a b l v e = absurd (cc e)
key_of job (some q) r a b l (k, _, _, _) e = sym (ap Receipt.job_id (some-injective q r e)) ∙ k

pub buried-IsValid :
    (r q : Receipt) (payload e : String) (now : ℕ) (d : Db)
    → find q.job_id d.receipts ≡ some r
    → count_running q.job_id d.attempts ≡ 0
    → IsValidDb d
    → IsValidDb (buried q payload e now d)
unfolding buried settle_receipt upsert_dead_letter
buried-IsValid r q payload e now d f z v =
    rw (buried, upsert_dead_letter, settle_receipt, update_receipt, f)
      (one_job-IsValid q.job_id s d.attempts (insert q.job_id l d.dead_letters) d.next_id d
        (settled_job q.job_id (find q.job_id d.receipts) r s _ _ _ _ (find q.job_id d.dead_letters)
          _ (v.jobs q.job_id) f refl refl (omega (arith, z)) refl
          (rw (find-insert q.job_id q.job_id l d.dead_letters, beq_self q.job_id) (refl, refl)))
        (λ j h. (omega arith, refl, rw (find-insert q.job_id j l d.dead_letters, h) refl)) v.ids v)
  where
    s : Receipt
    s = record r { state = dead; last_error = some e; updated_at = now; completed_at = some now }

    l : DeadLetter
    l = record {
      job_id = q.job_id;
      kind = q.kind;
      payload_json = payload;
      error = e;
      created_at = now;
    }

pub finished-IsValid :
    (id : ℕ) (a : Attempt) (r : Receipt) (o : Option String) (now : ℕ) (d : Db)
    → find_attempt id d.attempts ≡ some a
    → a.result ≡ running
    → find a.job_id d.receipts ≡ some r
    → r.state ≡ processing
    → IsValidDb d
    → IsValidDb (finished a id o now d)
unfolding finished settle_receipt finish_running
finished-IsValid id a r o now d f u g p v =
    rw (finished, settle_receipt, update_receipt, finish_running, g)
      (one_job-IsValid a.job_id s _ d.dead_letters d.next_id d
        (settled_job a.job_id (find a.job_id d.receipts) r s _ _ _ _ (find a.job_id d.dead_letters)
          _ (v.jobs a.job_id) g refl refl (omega (arith, fewer_running, within))
          (count_rows_of-update a.job_id _ (result_of o) now o d.attempts)
          (unlettered o (find a.job_id d.dead_letters)))
        (λ j h. (
          count_running-finish j _ (result_of o) now o d.attempts (not_running o),
          count_rows_of-update j _ (result_of o) now o d.attempts,
          refl,
        ))
        (update_where-IdsBelow d.next_id _ (result_of o) now o d.attempts v.ids) v)
  where
    s : Receipt
    s = record r {
      state = state_of o;
      last_error = o;
      updated_at = now;
      completed_at = coalesce (completed_of o now) r.completed_at;
    }

    not_running : (o : Option String) → is_running (result_of o) ≡ false
    not_running none = refl
    not_running (some e) = refl

    fewer_running :
        count_running a.job_id (
          update_where
            (λ b. nat_beq b.id id && is_running b.result)
            (finish_row (result_of o) now o)
            d.attempts)
        < count_running a.job_id d.attempts
    fewer_running = count_running-finish_one id (result_of o) now o d.attempts a (not_running o) f u

    within : count_running a.job_id d.attempts ≤ 1
    within =
        subst (λ x. count_running a.job_id d.attempts ≤ slots x) p
          (slots_of a.job_id (find a.job_id d.receipts) r _ _ _ (v.jobs a.job_id) g)

    unlettered : (o : Option String) (l : Option DeadLetter) → Lettered (state_of o) o l
    unlettered none l = tt
    unlettered (some e) l = tt
