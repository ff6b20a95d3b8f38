-- ===== src/PageTests.antt =====
-- The theorems on pages and weak pairs at a memory of one segment.
use ikarus.Base.{◌≡◌, ◌≢◌, refl, arith, [], ◌∷◌, replicate, inl}
use ikarus.Pages.Cache.{IsMemory, IsHole}
use ikarus.Pages.Conses.{IsWeak, Conses, ikrt_weak_cons-Conses}
use ikarus.Pages.History.{Run, done, maps, NeverHanded, Run-keeps}
use ikarus.Pages.Map.{IsFresh, Maps, AllFree, ik_mmap_typed-Maps}
use ikarus.Pages.Ranges.{InUse}
use ikarus.Pages.Types.{type_at}
use ikarus.Pages.Unmap.{Unmaps, ik_munmap_from_segment-Unmaps}
use ikarus.Pages.Valid.{IsTable, Inside, Gives}
use ikarus.Pages.Weak.{WeakPairs, ikrt_weak_cons}
use ikarus.Pages.{Memory, ik_mmap_typed, ik_munmap_from_segment}

-- The segment from 4 MB to 8 MB. Its first page is data, its second page is in the cache.
abbrev one_segment : Memory
one_segment = record {
  memory_base = 4194304;
  memory_end = 8388608;
  segment_vector = 66560 ∷ replicate 1023 0;
  dirty_vector = replicate 1024 0;
  cached_pages = 4198400 ∷ [];
  uncached_pages = 1;
}

one_segment-IsTable : IsTable one_segment
one_segment-IsTable = record {
  base_whole = refl;
  end_whole = refl;
  ordered = omega arith;
  types_lem = refl;
  dirty_lem = refl;
}

cached-IsHole : IsHole one_segment 4198400
cached-IsHole = record { whole = refl; from = omega arith; to = omega arith; hole = refl }

one_segment-IsMemory : IsMemory one_segment
one_segment-IsMemory = record { table = one_segment-IsTable; cached = (cached-IsHole, (tt, tt)) }

-- ik_mmap maps the page behind the segment.
behind_free : AllFree 8388608 4096 one_segment
behind_free page lo hi = let same : page ≡ 2048 = omega arith in rw same refl

behind-IsFresh : IsFresh one_segment 8388608 4096
behind-IsFresh = record {
  whole = refl;
  one_side = λ lt. absurd (omega arith);
  apart = (inl (omega arith), tt);
  free = behind_free;
}

ik_mmap_typed-Maps_example :
    Gives (ik_mmap_typed 8388608 4096 256 one_segment) (Maps one_segment 8388608 4096 256)
ik_mmap_typed-Maps_example =
    ik_mmap_typed-Maps one_segment 8388608 4096 256 one_segment-IsMemory behind-IsFresh refl

first-Inside : Inside 4194304 4096 one_segment
first-Inside = record { base_page = refl; size_page = refl; from = omega arith; to = omega arith }

first-InUse : InUse 4194304 4096 one_segment
first-InUse page lo hi e =
    let same : page ≡ 1024 = omega arith in
    let used : type_at one_segment page ≡ 66560 = rw same refl in omega (arith, used, e)

ik_munmap_from_segment-Unmaps_example :
    Gives (ik_munmap_from_segment 4194304 4096 one_segment) (Unmaps one_segment 4194304 4096)
ik_munmap_from_segment-Unmaps_example =
    ik_munmap_from_segment-Unmaps one_segment 4194304 4096 one_segment-IsMemory first-Inside
      first-InUse (omega arith) (omega arith)

first_page_used : type_at one_segment 1024 ≢ 0
first_page_used e = omega (arith, e)

mapped_page : Gives (ik_mmap_typed 8388608 4096 256 one_segment) (Maps one_segment 8388608 4096 256)
mapped_page =
    ik_mmap_typed-Maps one_segment 8388608 4096 256 one_segment-IsMemory behind-IsFresh refl

abbrev memory_after : Memory
memory_after = mapped_page.result.1

one_call : Run 1024 one_segment memory_after
one_call = maps 8388608 4096 256 mapped_page.result.0 behind-IsFresh refl mapped_page.run done

Run-keeps_example :
    IsMemory memory_after
    × (type_at memory_after 1024 ≡ type_at one_segment 1024)
    × NeverHanded 1024 one_call
Run-keeps_example =
    Run-keeps 1024 one_segment memory_after one_segment-IsMemory first_page_used one_call

-- No weak pair was made yet.
abbrev no_weak_pairs : WeakPairs
no_weak_pairs = record { memory = one_segment; weak_pairs_ap = 0; weak_pairs_ep = 0; pairs = [] }

no_weak_pairs-IsWeak : IsWeak no_weak_pairs
no_weak_pairs-IsWeak = record {
  memory_lem = one_segment-IsMemory;
  ap_lem = refl;
  ep_lem = refl;
  space = λ lt. absurd (omega (arith, lt));
  pairs_lem = tt;
}

ikrt_weak_cons-Conses_example :
    Gives (ikrt_weak_cons 8388608 63 79 no_weak_pairs) (Conses no_weak_pairs 63 79)
ikrt_weak_cons-Conses_example =
    ikrt_weak_cons-Conses 8388608 63 79 no_weak_pairs no_weak_pairs-IsWeak behind-IsFresh
