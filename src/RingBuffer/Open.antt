-- ===== src/RingBuffer/Open.antt =====
-- `rb_open` and `rb_release` of 14-module/main.c: the device is open at most once.
use otus_c.Common.{ℕ, ◌+◌, ◌-◌, ◌≤◌, ◌<◌, ◌≡◌, refl, Bool, true, false, arith}
use otus_c.RingBuffer.{ret, fail, ebusy, rb_open, rb_release}

-- `device_mutex`, and how many opened files have not been released.
pub record Files : Type 0 where
  pub held : Bool
  pub opened : ℕ

-- The kernel opens at any time, and releases only what is open.
pub data Step : Files → Files → Type 0 where
  opens : (s t : Files) → rb_open s.held ≡ (t.held, ret 0) → t.opened ≡ s.opened + 1 → Step s t
  refused : (s t : Files) → rb_open s.held ≡ (t.held, fail ebusy) → t.opened ≡ s.opened → Step s t
  releases :
      (s t : Files)
      → 0 < s.opened
      → rb_release s.held ≡ (t.held, ret 0)
      → t.opened ≡ s.opened - 1
      → Step s t

pub data Reach (s : Files) : Files → Type 0 where
  here : Reach s s
  next : {t u : Files} → Reach s t → Step t u → Reach s u

-- The mutex is held just while one file is open.
abbrev IsExclusive : Files → Type 0
IsExclusive f = elim f.held [ true ↦ f.opened ≡ 1 | false ↦ f.opened ≡ 0 ]

Step-IsExclusive : {s t : Files} → Step s t → IsExclusive s → IsExclusive t
unfolding rb_open rb_release
Step-IsExclusive (opens s t e n) h = ground arith
Step-IsExclusive (refused s t e n) h = ground arith
Step-IsExclusive (releases s t p e n) h = ground arith

Reach-IsExclusive : {s t : Files} → IsExclusive s → Reach s t → IsExclusive t
Reach-IsExclusive h here = h
Reach-IsExclusive h (next r st) = Step-IsExclusive st (Reach-IsExclusive h r)

abbrev pub closed : Files
closed = record { held = false; opened = 0 }

-- However opens and releases come one after the other, where only what is open is released, the
-- device is open at most once, and an open is answered by -EBUSY exactly when it is open.
pub open_exclusive :
    {t : Files}
    → Reach closed t
    → (t.opened ≤ 1)
      × ((rb_open t.held).1 ≡ fail ebusy → t.opened ≡ 1)
      × (t.opened ≡ 1 → (rb_open t.held).1 ≡ fail ebusy)
unfolding rb_open
open_exclusive {t} r = ground (arith, Reach-IsExclusive {s = closed} refl r)
