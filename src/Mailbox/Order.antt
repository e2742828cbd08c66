-- ===== src/Mailbox/Order.antt =====
-- The order in which a mail slot delivers, and the bound on what it holds.
use mathlib.Core.List.{append-nil, append_assoc}
use aosv_project.Prelude.{
  ℕ, ◌<◌, ◌≡◌, ◌⊎◌, inl, inr, refl, sym, ap, ◌∙◌, List, [], ◌∷◌, ◌++◌, arith,
}
use aosv_project.Mailbox.{
  Mailbox, Event, post, publish_all, change_delay, Step, posts_now, posts_later, refuses,
  finds_full, delivers, loses, finds_empty, publishes, skips, publishes_all, changes_delay, keeps,
  Steps, end, and_then, posts, takes,
}

-- Neither the delay is changed nor are the delayed messages revoked.
abbrev pub IsSteady : List Event → Type 0
IsSteady [] = Unit {0}
IsSteady (publish_all ∷ es) = ⊥
IsSteady (change_delay j ∷ es) = ⊥
IsSteady (_ ∷ es) = IsSteady es

-- Each delayed message is newer than each available one.
abbrev pub IsOrdered : Mailbox → Type 0
IsOrdered q = (0 < q.delay) ⊎ (q.delayed ≡ [])

-- All messages held, in the order in which they are delivered.
abbrev pub queue : Mailbox → List (List ℕ)
queue q = q.available ++ q.delayed

posts_now-queue :
    (q : Mailbox) (m : List ℕ)
    → q.delayed ≡ []
    → (q.available ++ m ∷ []) ++ q.delayed ≡ queue q ++ m ∷ []
posts_now-queue q m e = rw e (simp append-nil)

publishes-queue :
    (q : Mailbox) (m : List ℕ) (rest : List (List ℕ))
    → q.delayed ≡ m ∷ rest
    → (q.available ++ m ∷ []) ++ rest ≡ queue q ++ []
publishes-queue q m rest e = rw e (simp (append_assoc, append-nil))

-- One step keeps the order: what it takes is the front of the queue, what it posts goes to the end.
Step-fifo :
    {cap size : ℕ} {q r : Mailbox} {e : Event}
    → Step cap size q r e
    → IsSteady (e ∷ [])
    → IsOrdered q
    → IsOrdered r × (takes (e ∷ []) ++ queue r ≡ queue q ++ posts (e ∷ []))
Step-fifo {q} (posts_now {m} z ne fits room c) s (inl o) = absurd (omega (arith, z, o))
Step-fifo {q} (posts_now {m} z ne fits room c) s (inr o) = rw c (inr o, posts_now-queue q m o)
Step-fifo {q} (posts_later {m} z ne fits room c) s o =
    rw c (inl z, sym (append_assoc q.available q.delayed (m ∷ [])))
Step-fifo {q} (refuses c) s o = rw c (o, sym (append-nil (queue q)))
Step-fifo {q} (finds_full f c) s o = rw c (o, sym (append-nil (queue q)))
Step-fifo {q} {r} (delivers {m} c fits) s o = rw c (rw c at o, sym (append-nil (m ∷ queue r)))
Step-fifo {q} {r} (loses {m} c) s o = rw c (rw c at o, sym (append-nil (m ∷ queue r)))
Step-fifo {q} (finds_empty e c) s o = rw c (o, sym (append-nil (queue q)))
Step-fifo {q} (publishes {m} {rest} e c) s (inl o) = rw c (inl o, publishes-queue q m rest e)
Step-fifo {q} (publishes {m} {rest} e c) s (inr o) = absurd (cc)
Step-fifo {q} (skips e c) s o = rw c (o, sym (append-nil (queue q)))
Step-fifo (publishes_all c) s o = absurd s
Step-fifo (changes_delay c) s o = absurd s
Step-fifo {q} (keeps c) s o = rw c (o, sym (append-nil (queue q)))

IsSteady-tail : (e : Event) (es : List Event) → IsSteady (e ∷ es) → IsSteady (e ∷ []) × IsSteady es
IsSteady-tail (post m) es s = (tt, s)
IsSteady-tail publish_all es s = absurd s
IsSteady-tail (change_delay j) es s = absurd s
IsSteady-tail _ es s = (tt, s)

pub takes-cons : (e : Event) (es : List Event) → takes (e ∷ es) ≡ takes (e ∷ []) ++ takes es
takes-cons (post m) es = refl
takes-cons _ es = refl

pub posts-cons : (e : Event) (es : List Event) → posts (e ∷ es) ≡ posts (e ∷ []) ++ posts es
posts-cons (post m) es = refl
posts-cons _ es = refl

-- Any number of steps: what was taken, and then the queue that is left, is the queue that was there
-- and then what was posted.
pub Steps-fifo :
    {cap size : ℕ} {q r : Mailbox} {es : List Event}
    → Steps cap size q r es
    → IsSteady es
    → IsOrdered q
    → takes es ++ queue r ≡ queue q ++ posts es
Steps-fifo {q} end s o = sym (append-nil (queue q))
Steps-fifo (and_then {q} {r} {s = z} {e} {es} st rest) s o =
    let (s1, s2) = IsSteady-tail e es s in
    let (o', one) = Step-fifo st s1 o in
    rw (takes-cons e es, posts-cons e es, append_assoc (takes (e ∷ [])), Steps-fifo rest s2 o')
      (sym (append_assoc (takes (e ∷ [])) (queue r) (posts es))
        ∙ ap (λ (l : List (List ℕ)). l ++ posts es) one
        ∙ append_assoc (queue q) (posts (e ∷ [])) (posts es))
