-- ===== src/Mailbox/Receipt.antt =====
-- Whatever a mail slot does, no message is lost, doubled or made up, and it never overflows.
use mathlib.Core.List.{append-nil, append_assoc, perm_middle}
use mathlib.Core.List.Perm
use mathlib.Core.List.{Perm}
use aosv_project.Prelude.{
  ℕ, ◌+◌, ◌≤◌, ◌≡◌, sym, ap, ◌∙◌, List, [], ◌∷◌, ◌++◌, arith, length, length-append, suc,
}
use aosv_project.Mailbox.{
  Mailbox, held, Event, Step, posts_now, posts_later, refuses, finds_full, delivers, loses,
  finds_empty, publishes, skips, publishes_all, changes_delay, keeps, Steps, end, and_then, posts,
  takes,
}
use aosv_project.Mailbox.Order.{queue, takes-cons, posts-cons}

module _ {ℓ} {A : Type ℓ} where
  pub eq-perm : {xs ys : List A} → xs ≡ ys → Perm xs ys
  eq-perm {xs} e = rw (← e) (Perm.refl xs)

  snoc-perm : (xs : List A) (a : A) → Perm (xs ++ a ∷ []) (a ∷ xs)
  snoc-perm xs a = Perm.trans (perm_middle xs []) (eq-perm (ap (◌∷◌ a) (append-nil xs)))

  pub append_comm : (xs ys : List A) → Perm (xs ++ ys) (ys ++ xs)
  append_comm [] ys = eq-perm (sym (append-nil ys))
  append_comm (x ∷ xs) ys =
      Perm.trans (Perm.cons x (append_comm xs ys)) (Perm.symm (perm_middle ys xs))

-- A message posted to the first of two lists, or to the second.
posts_first :
    (xs ys : List (List ℕ)) (m : List ℕ) → Perm ((xs ++ m ∷ []) ++ ys) ((xs ++ ys) ++ m ∷ [])
posts_first xs ys m =
    Perm.trans (eq-perm (append_assoc xs (m ∷ []) ys))
      (Perm.trans (perm_middle xs ys) (Perm.symm (snoc-perm (xs ++ ys) m)))

Step-receipt :
    {cap size : ℕ} {q r : Mailbox} {e : Event}
    → Step cap size q r e
    → Perm (takes (e ∷ []) ++ queue r) (queue q ++ posts (e ∷ []))
Step-receipt {q} (posts_now {m} z ne fits room c) = rw c (posts_first q.available q.delayed m)
Step-receipt {q} (posts_later {m} z ne fits room c) =
    rw c (eq-perm (sym (append_assoc q.available q.delayed (m ∷ []))))
Step-receipt {q} (refuses c) = rw c (eq-perm (sym (append-nil (queue q))))
Step-receipt {q} (finds_full f c) = rw c (eq-perm (sym (append-nil (queue q))))
Step-receipt {q} {r} (delivers {m} c fits) = rw c (eq-perm (sym (append-nil (m ∷ queue r))))
Step-receipt {q} {r} (loses {m} c) = rw c (eq-perm (sym (append-nil (m ∷ queue r))))
Step-receipt {q} (finds_empty e c) = rw c (eq-perm (sym (append-nil (queue q))))
Step-receipt {q} (publishes {m} {rest} e c) =
    rw (c, e)
      (eq-perm
        (append_assoc q.available (m ∷ []) rest ∙ sym (append-nil (q.available ++ (m ∷ rest)))))
Step-receipt {q} (skips e c) = rw c (eq-perm (sym (append-nil (queue q))))
Step-receipt {q} (publishes_all c) = rw c (
    Perm.trans (eq-perm (append-nil (q.delayed ++ q.available)))
      (Perm.trans (append_comm q.delayed q.available) (eq-perm (sym (append-nil (queue q))))))
Step-receipt {q} (changes_delay c) = rw c (eq-perm (sym (append-nil (queue q))))
Step-receipt {q} (keeps c) = rw c (eq-perm (sym (append-nil (queue q))))

-- After any steps, the messages taken and those still held are those held before and those posted,
-- each as often.
pub Steps-receipt :
    {cap size : ℕ} {q r : Mailbox} {es : List Event}
    → Steps cap size q r es
    → Perm (takes es ++ queue r) (queue q ++ posts es)
Steps-receipt {q} end = eq-perm (sym (append-nil (queue q)))
Steps-receipt (and_then {q} {r} {s = z} {e} {es} st rest) =
    rw
      (
        takes-cons e es,
        posts-cons e es,
        append_assoc (takes (e ∷ [])),
        ← append_assoc (queue q) (posts (e ∷ [])) (posts es),
      )
      (Perm.trans (Perm.append_left (takes (e ∷ [])) (Steps-receipt rest)) (
        Perm.trans (eq-perm (sym (append_assoc (takes (e ∷ [])) (queue r) (posts es))))
          (Perm.append_right (posts es) (Step-receipt st))))

Step-capacity :
    {cap size : ℕ} {q r : Mailbox} {e : Event} → Step cap size q r e → held q ≤ cap → held r ≤ cap
Step-capacity {q} (posts_now {m} z ne fits room c) h =
    rw c (omega (arith, length-append q.available (m ∷ [])))
Step-capacity {q} (posts_later {m} z ne fits room c) h =
    rw c (omega (arith, length-append q.delayed (m ∷ [])))
Step-capacity (refuses c) h = rw c h
Step-capacity (finds_full f c) h = rw c h
Step-capacity {q} {r} (delivers {m} c fits) h =
    let h' : suc (length r.available) + length r.delayed ≤ _ = rw c at h in omega arith
Step-capacity {q} {r} (loses {m} c) h =
    let h' : suc (length r.available) + length r.delayed ≤ _ = rw c at h in omega arith
Step-capacity (finds_empty e c) h = rw c h
Step-capacity {q} (publishes {m} {rest} e c) h =
    rw c (omega (arith, ap length e, length-append q.available (m ∷ [])))
Step-capacity (skips e c) h = rw c h
Step-capacity {q} (publishes_all c) h = rw c (omega (arith, length-append q.delayed q.available))
Step-capacity (changes_delay c) h = rw c h
Step-capacity (keeps c) h = rw c h

pub Steps-capacity :
    {cap size : ℕ} {q r : Mailbox} {es : List Event}
    → Steps cap size q r es
    → held q ≤ cap
    → held r ≤ cap
Steps-capacity end h = h
Steps-capacity (and_then st rest) h = Steps-capacity rest (Step-capacity st h)
