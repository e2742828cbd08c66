-- ===== src/Programs/Groups/Devices.antt =====
-- The devices of several groups, each of which behaves as a mail slot of its own.
use aosv_project.Prelude.{
  ℕ, ◌<◌, ◌^◌, ◌≡◌, refl, sym, ap, ◌∙◌, false, List, [], ◌∷◌, length, ℤ, pos, is_negative,
  if◌then◌else◌, ◌==◌, has, arith, Bool-cases, ==-refl, inl, inr, min,
}
use aosv_project.Prelude.Bytes.{take}
use aosv_project.Kernel.{Services, IsLinux}
use aosv_project.Device.{GroupDev, IsIdle}
use aosv_project.Device.Write.{Params}
use aosv_project.Device.Refinement.{view}
use aosv_project.Mailbox.{Mailbox, held}
use aosv_project.Programs.{Library, message_size}
use aosv_project.Programs.Slot.{posted}
use aosv_project.Programs.OnDevice.{World, IsFine, library_of, Storable}
use aosv_project.Programs.OnDevice.Laws.{library_of-IsSlot, library_of-closes}
use aosv_project.Programs.Groups.Laws.{IsSlots, Outside}

abbrev put : {A : Type 0} → ℕ → A → (ℕ → A) → ℕ → A
put i a s j = if j == i then a else s j

put-all :
    {A : Type 0} (P : A → Type 0) (i : ℕ) (a : A) (s : ℕ → A)
    → P a
    → ((j : ℕ) → P (s j))
    → (j : ℕ) → P (put i a s j)
put-all P i a s h v j = elim (Bool-cases (j == i)) [ inl e ↦ rw e h | inr e ↦ rw e (v j) ]

put-here : {A : Type 0} (i : ℕ) (a : A) (s : ℕ → A) → put i a s i ≡ a
put-here i a s = rw (==-refl i) refl

put-else : {A : Type 0} (i j : ℕ) (a : A) (s : ℕ → A) → has j (i ∷ []) ≡ false → put i a s j ≡ s j
put-else i j a s h = let other : (j == i) ≡ false = ground arith in rw other refl

put-same : {A : Type 0} (i : ℕ) (a : A) (s : ℕ → A) → a ≡ s i → (j : ℕ) → put i a s j ≡ s j
put-same i a s e j = elim (Bool-cases (j == i)) [
  | inl h ↦ let here : j ≡ i = ground arith in rw h (e ∙ ap s (sym here))
  | inr h ↦ rw h refl
]

module _ (k : Services) (p : Params) (w : World) (file_of : ℕ → ℤ) (desc_of : ℤ → ℕ) where
  -- The library on the devices by their numbers: a group is open as the file that the system gives, and a
  -- call on a file is a call on its device.
  abbrev pub groups_library : Library (ℕ → GroupDev)
  groups_library = record {
    open_group = λ desc s. (file_of desc, s);
    send_message = λ fd m s.
        let r = (library_of k p w fd).send_message fd m (s (desc_of fd)) in
        (r.0, put (desc_of fd) r.1 s);
    retrieve_message = λ fd n s.
        let r = (library_of k p w fd).retrieve_message fd n (s (desc_of fd)) in
        (r.0, put (desc_of fd) r.1 s);
    awake_barrier =
        λ fd s. put (desc_of fd) ((library_of k p w fd).awake_barrier fd (s (desc_of fd))) s;
    set_send_delay = λ fd delay s.
        let r = (library_of k p w fd).set_send_delay fd delay (s (desc_of fd)) in
        (r.0, put (desc_of fd) r.1 s);
    revoke_delayed_messages = λ fd s.
        put (desc_of fd) ((library_of k p w fd).revoke_delayed_messages fd (s (desc_of fd))) s;
    close_group =
        λ fd s. put (desc_of fd) ((library_of k p w fd).close_group fd (s (desc_of fd))) s;
    sleep = λ n s. s;
    mygetch = λ s. s;
  }

  module _ (fine_world : IsFine w) (linux : IsLinux k) (small : p.max_storage_size < 2 ^ 32)
      (in_buffer : p.max_message_size < message_size)
      (file_open : (desc : ℕ) → is_negative (file_of desc) ≡ false)
      (named : (desc : ℕ) → desc_of (file_of desc) ≡ desc) where
    abbrev pub AllIdle : (ℕ → GroupDev) → Type 0
    AllIdle s = (i : ℕ) → IsIdle (s i)

    abbrev pub views : ℕ → (ℕ → GroupDev) → Mailbox
    views i s = view (s i)

    pub ends :
        (desc : ℕ) (s : ℕ → GroupDev)
        → AllIdle s
        → AllIdle (groups_library.close_group (file_of desc) s)
          × Outside views [] s (groups_library.close_group (file_of desc) s)
    ends desc s v =
        let closes = library_of-closes k p w (file_of desc) (file_open desc) (s desc) in
        rw (named desc) (
          put-all IsIdle desc
              ((library_of k p w (file_of desc)).close_group (file_of desc) (s desc)) s
              (rw closes (v desc)) v,
          λ i h. ap view (
              put-same desc ((library_of k p w (file_of desc)).close_group (file_of desc) (s desc))
                s closes i),
        )

    -- What a call on one device does to all of them.
    put-Outside :
        (desc : ℕ) (d : GroupDev) (s : ℕ → GroupDev) (q : Mailbox)
        → IsIdle d
        → view d ≡ q
        → AllIdle s
        → AllIdle (put desc d s)
          × (views desc (put desc d s) ≡ q)
          × Outside views (desc ∷ []) s (put desc d s)
    put-Outside desc d s q v e all = (
      put-all IsIdle desc d s v all,
      ap view (put-here desc d s) ∙ e,
      λ i h. ap view (put-else desc i d s h),
    )

    pub sends :
        (desc : ℕ) (m : List ℕ) (s : ℕ → GroupDev)
        → AllIdle s
        → Storable k p m
        → held (views desc s) < p.max_storage_size
        → AllIdle (groups_library.send_message (file_of desc) m s).1
          × ((groups_library.send_message (file_of desc) m s).0 ≡ pos (length m))
          × (views desc (groups_library.send_message (file_of desc) m s).1
              ≡ posted (views desc s) m)
          × Outside views (desc ∷ []) s (groups_library.send_message (file_of desc) m s).1
    sends desc m s v st room =
        let fd = file_of desc in
        let slot = library_of-IsSlot k p w fine_world linux small fd (file_open desc) in_buffer in
        let (v', ret, q) = slot.sends m (s desc) (v desc) st room in
        let o = put-Outside desc ((library_of k p w fd).send_message fd m (s desc)).1 s _ v' q v in
        rw (named desc) (o.0, ret, o.1, o.2)

    pub finds_none :
        (desc n : ℕ) (s : ℕ → GroupDev)
        → AllIdle s
        → (views desc s).available ≡ []
        → AllIdle (groups_library.retrieve_message (file_of desc) n s).1
          × ((groups_library.retrieve_message (file_of desc) n s).0.0 ≡ pos 0)
          × (views desc (groups_library.retrieve_message (file_of desc) n s).1 ≡ views desc s)
          × Outside views (desc ∷ []) s (groups_library.retrieve_message (file_of desc) n s).1
    finds_none desc n s v e =
        let fd = file_of desc in
        let slot = library_of-IsSlot k p w fine_world linux small fd (file_open desc) in_buffer in
        let (v', ret, q) = slot.finds_none n (s desc) (v desc) e in
        let o =
          put-Outside desc ((library_of k p w fd).retrieve_message fd n (s desc)).1 s _ v' q v in
        rw (named desc) (o.0, ret, o.1, o.2)

    pub retrieves :
        (desc n : ℕ) (s : ℕ → GroupDev) (m : List ℕ) (rest : List (List ℕ))
        → AllIdle s
        → (views desc s).available ≡ m ∷ rest
        → AllIdle (groups_library.retrieve_message (file_of desc) n s).1
          × ((groups_library.retrieve_message (file_of desc) n s).0
              ≡ (pos (min n (length m)), take n m))
          × (views desc (groups_library.retrieve_message (file_of desc) n s).1
              ≡ record (views desc s) { available = rest })
          × Outside views (desc ∷ []) s (groups_library.retrieve_message (file_of desc) n s).1
    retrieves desc n s m rest v e =
        let fd = file_of desc in
        let slot = library_of-IsSlot k p w fine_world linux small fd (file_open desc) in_buffer in
        let (v', ret, q) = slot.retrieves n (s desc) m rest (v desc) e in
        let o =
          put-Outside desc ((library_of k p w fd).retrieve_message fd n (s desc)).1 s _ v' q v in
        rw (named desc) (o.0, ret, o.1, o.2)

    abbrev pub groups_library-IsSlots : IsSlots groups_library p.max_storage_size
    groups_library-IsSlots = record {
      Valid = λ s. (i : ℕ) → IsIdle (s i);
      Storable = Storable k p;
      view = λ i s. view (s i);
      file_of = file_of;
      file_open = file_open;
      not_empty = λ m st. st.0;
      starts = λ desc s v. (v, refl, λ i h. refl);
      ends = ends;
      sends = sends;
      finds_none = finds_none;
      retrieves = retrieves;
    }
