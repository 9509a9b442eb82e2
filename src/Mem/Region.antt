-- ===== src/Mem/Region.antt =====
-- libkernel/src/memory/address.rs and libkernel/src/memory/region.rs. An address is its `usize`.
-- Sums wrap, as in a release build; a failed `assert!` is `panicked`.

pub mod Points
pub mod Pages
mod Tests
use moss.Common.{
  ℕ, zero, suc, ◌+◌, ◌-◌, ◌*◌, ◌/◌, ◌%◌, min, max, Bool, not, ◌&&◌, ◌||◌, Option, none, some, List,
  [], ◌∷◌, ltb, leb, ◌==◌, if◌then◌else◌, wadd, wsub, saturating_sub, Exec, done, panicked, ◌>>=◌,
  ◌≡◌, refl, true,
}
use Prim.Native.Nat.{bit_and}

abbrev pub page_size : ℕ
page_size = 4096

-- `usize::is_power_of_two`
abbrev pub is_power_of_two : ℕ → Bool
is_power_of_two n = ltb 0 n && bit_and n (n - 1) == 0

-- `x & !(a - 1)`, which for a power of two takes away the remainder
abbrev pub masked : ℕ → ℕ → ℕ
masked x a = x - x % a

-- `assert!(align.is_power_of_two())`, and the masked address
unfoldable pub align : ℕ → ℕ → Exec ℕ
align addr a = if is_power_of_two a then done (masked addr a) else panicked

-- `inner + (align - 1)`, masked
unfoldable pub rounded_up : ℕ → ℕ → ℕ
rounded_up addr a = masked (wadd addr (a - 1)) a

unfoldable pub align_up : ℕ → ℕ → Exec ℕ
unfolding rounded_up
align_up addr a = if is_power_of_two a then done (rounded_up addr a) else panicked

pub align_up-eq-done :
    (addr a : ℕ) → is_power_of_two a ≡ true → align_up addr a ≡ done (rounded_up addr a)
unfolding align_up
align_up-eq-done addr a h = rw (h, align_up) refl

-- `inner & !PAGE_MASK`, `inner & PAGE_MASK == 0`, `inner & PAGE_MASK`
abbrev pub page_aligned : ℕ → ℕ
page_aligned addr = addr - addr % page_size

abbrev pub page_offset : ℕ → ℕ
page_offset addr = addr % page_size

abbrev pub addr_is_page_aligned : ℕ → Bool
addr_is_page_aligned addr = addr % page_size == 0

abbrev pub add_pages_addr : ℕ → ℕ → ℕ
add_pages_addr addr count = wadd addr (page_size * count)

pub record Region : Type 0 where
  pub address : ℕ
  pub size : ℕ

unfoldable pub new : ℕ → ℕ → Region
new address size = record { address = address; size = size }

unfoldable pub empty : Region
empty = record { address = 0; size = 0 }

abbrev pub is_empty : Region → Bool
is_empty self = self.size == 0

abbrev pub end_address : Region → ℕ
end_address self = wadd self.address self.size

abbrev pub end_address_inclusive : Region → ℕ
end_address_inclusive self = wadd self.address (saturating_sub self.size 1)

-- The size is `end - start`, which the assertion keeps from wrapping.
unfoldable pub from_start_end_address : ℕ → ℕ → Exec Region
from_start_end_address start end =
    if leb start end then done (record { address = start; size = end - start }) else panicked

unfoldable pub cap_size : Region → ℕ → Region
cap_size self max_size =
    if ltb max_size self.size then record { address = self.address; size = max_size } else self

unfoldable pub shrink_start : Region → ℕ → Region
shrink_start self x = record { address = wadd self.address x; size = saturating_sub self.size x }

unfoldable pub overlaps : Region → Region → Bool
overlaps self other =
    not (leb (end_address self) other.address || leb (end_address other) self.address)

unfoldable pub is_before : Region → Region → Bool
is_before self other = leb (end_address self) other.address

unfoldable pub is_after : Region → Region → Bool
is_after self other = leb (end_address other) self.address

unfoldable pub merge : Region → Region → Option Region
merge self other =
    if leb other.address (end_address self) && leb self.address (end_address other)
    then some (record {
      address = min self.address other.address;
      size = wsub (max (end_address self) (end_address other)) (min self.address other.address);
    })
    else none

-- `if a < b { let end/start = …; if lo < hi { Some(from_start_end(lo, hi)) } else { None } } …`
abbrev remainder : Bool → ℕ → ℕ → Exec (Option Region)
remainder exists lo hi =
    if exists && ltb lo hi then (from_start_end_address lo hi >>= λ r. done (some r)) else done none

unfoldable pub punch_hole : Region → Region → Exec (Option Region × Option Region)
unfolding from_start_end_address
punch_hole self other =
    remainder (ltb self.address other.address) self.address (min (end_address self) other.address)
    >>= λ left.
        remainder (ltb (end_address other) (end_address self))
          (max self.address (end_address other)) (end_address self)
        >>= λ right. done (left, right)

unfoldable pub contains : Region → Region → Bool
contains self other =
    leb self.address other.address && leb (end_address_inclusive other) (end_address_inclusive self)

unfoldable pub contains_address : Region → ℕ → Bool
contains_address self val = leb self.address val && ltb val (end_address self)

-- `n << PAGE_SHIFT`
unfoldable pub add_pages : Region → ℕ → Region
add_pages self n =
    let offset = n * page_size % moss.Common.usize_mod in
    record { address = wadd self.address offset; size = saturating_sub self.size offset }

unfoldable pub intersection : Region → Region → Option Region
intersection self other =
    if is_empty self || is_empty other
    then none
    else (let start = max self.address other.address in
        let end = min (end_address_inclusive self) (end_address_inclusive other) in
        if leb start end
        then some (record { address = start; size = wadd (end - start) 1 })
        else none)

unfoldable pub align_to_page_boundary : Region → Exec Region
unfolding align align_up from_start_end_address
align_to_page_boundary self = align self.address page_size >>= (λ start.
    align_up (end_address self) page_size >>= (λ end. from_start_end_address start end))

pub record MappableRegion : Type 0 where
  pub region : Region
  pub offset_from_page_start : ℕ

unfoldable pub to_mappable_region : Region → Exec MappableRegion
unfolding align align_up from_start_end_address
to_mappable_region self =
    align self.address page_size
    >>= (λ start.
        align_up (end_address self) page_size >>= (λ end. from_start_end_address start end))
    >>= λ r. done (record { region = r; offset_from_page_start = page_offset self.address })

unfoldable pub expand_by : Region → ℕ → Exec Region
expand_by self size =
    if size % page_size == 0 then done (record self { size = wadd self.size size }) else panicked

-- The iterator's items in order: `count` runs up to the number of whole pages.
pages_from : ℕ → ℕ → ℕ → List ℕ
pages_from start count zero = []
pages_from start count (suc n) = add_pages_addr start count ∷ pages_from start (count + 1) n

unfoldable pub iter_pages : Region → List ℕ
unfolding pages_from
iter_pages self = pages_from self.address 0 (self.size / page_size)
