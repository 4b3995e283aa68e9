-- ===== src/Archive/Memory.antt =====
-- src/main.rs, `SecBuf`: the calls on memory that a buffer makes, in their order. An address is a
-- number. The results of `mprotect` and `madvise` are not looked at by the code and have no part here.
mod Trace
pub mod Guards
mod Tests
use hello_old.Base.{ℕ, ◌+◌, Bool, true, false, List, [], ◌∷◌, Option, none, some}
use hello_old.Archive.Buffer.{page, usable, total}

-- PROT_NONE, PROT_READ, and PROT_READ | PROT_WRITE.
pub data Prot : Type 0 where
  prot_none : Prot
  prot_read : Prot
  prot_read_write : Prot

-- Each with its address and its length. `mmap` is one that succeeds, `copied` and `zeroed` are the
-- writes of the code.
pub data MemoryCall : Type 0 where
  mmap : ℕ → ℕ → MemoryCall
  mlock : ℕ → ℕ → MemoryCall
  mprotect : ℕ → ℕ → Prot → MemoryCall
  madvise : ℕ → ℕ → MemoryCall
  copied : ℕ → ℕ → MemoryCall
  zeroed : ℕ → ℕ → MemoryCall
  munlock : ℕ → ℕ → MemoryCall
  munmap : ℕ → ℕ → MemoryCall

pub record SecBuf : Type 0 where
  pub base : ℕ
  pub ptr : ℕ
  pub usable : ℕ
  pub total : ℕ

-- Given where `mmap` maps, if it does, and whether `mlock` succeeds.
unfoldable pub new : ℕ → Option ℕ → Bool → List MemoryCall × Option SecBuf
new len none locked = ([], none)
new len (some base) false =
    let ptr = base + page in
    (mmap base (total len) ∷ mlock ptr (usable len) ∷ munmap base (total len) ∷ [], none)
new len (some base) true =
    let ptr = base + page in
    (
      mmap base (total len)
          ∷ mlock ptr (usable len)
          ∷ mprotect base page prot_none
          ∷ mprotect (ptr + usable len) page prot_none
          ∷ madvise ptr (usable len)
          ∷ [],
      some (record { base = base; ptr = ptr; usable = usable len; total = total len }),
    )

abbrev pub lock_ro : SecBuf → MemoryCall
lock_ro b = mprotect b.ptr b.usable prot_read

abbrev pub lock_none : SecBuf → MemoryCall
lock_none b = mprotect b.ptr b.usable prot_none

unfoldable pub drop : SecBuf → List MemoryCall
drop b =
    mprotect b.ptr b.usable prot_read_write
    ∷ zeroed b.ptr b.usable
    ∷ munlock b.ptr b.usable
    ∷ munmap b.base b.total
    ∷ []

-- What the binary does with a buffer that it has: it copies bytes to it, and locks it.
pub data Use : Type 0 where
  copy : ℕ → Use
  as_ro : Use
  as_none : Use

abbrev pub used : SecBuf → Use → MemoryCall
used b (copy n) = copied b.ptr n
used b as_ro = lock_ro b
used b as_none = lock_none b

abbrev pub uses_of : SecBuf → List Use → List MemoryCall
uses_of b [] = []
uses_of b (u ∷ uses) = used b u ∷ uses_of b uses
