-- ===== src/Device/Caps/Chain.antt =====
-- The loop over a capability chain that the kernel has laid out as its interface says.
use vfio.Prelude.{
  ℕ, zero, suc, ◌+◌, ◌-◌, ◌^◌, ◌≤◌, ◌<◌, ◌≡◌, refl, sym, ◌⊎◌, inl, inr, ap, ◌∙◌, some, List, [],
  ◌∷◌, ◌++◌, drop, arith, length, length-append, drop-length,
}
use mathlib.Core.List.{append_assoc, append-nil}
use vfio.Error.{ok}
use vfio.Bindings.Structs.{size_of_region_info}
use vfio.Device.Caps.{VfioRegionInfoCap, read_link, walk}
use vfio.Device.Caps.Bytes.{encode_header, encode_cap, CapFits, read_link-encode, read_link_unknown}

-- At this offset, counted from the start of the `vfio_region_info`, stand these bytes.
pub record Placed (bytes : List ℕ) (offset : ℕ) (part : List ℕ) : Type 0 where
  pub before : List ℕ
  pub after : List ℕ
  pub whole : bytes ≡ before ++ (part ++ after)
  pub place : offset ≡ size_of_region_info + length before

-- The next offset is further on, or ends the chain.
abbrev pub Onward : ℕ → ℕ → Type 0
Onward offset next = (offset < next) ⊎ (next < size_of_region_info)

-- From this offset on, through so many links, the bytes chain up these capabilities; the last link
-- points below the end of the `vfio_region_info`.
pub data Chain (bytes : List ℕ) : ℕ → ℕ → List VfioRegionInfoCap → Type 0 where
  stop : {offset : ℕ} → offset < size_of_region_info → Chain bytes 0 offset []
  link :
      {n offset : ℕ} {caps : List VfioRegionInfoCap} (cap : VfioRegionInfoCap) (version next : ℕ)
      → CapFits cap
      → version < 2 ^ 16
      → next < 2 ^ 32
      → Onward offset next
      → Placed bytes offset (encode_cap cap version next)
      → Chain bytes n next caps
      → Chain bytes (suc n) offset (cap ∷ caps)
  skip :
      {n offset : ℕ} {caps : List VfioRegionInfoCap} (id version next : ℕ)
      → 5 < id
      → id < 2 ^ 16
      → version < 2 ^ 16
      → next < 2 ^ 32
      → Onward offset next
      → Placed bytes offset (encode_header id version next)
      → Chain bytes n next caps
      → Chain bytes (suc n) offset caps

drop-Placed :
    (bytes : List ℕ) (offset : ℕ) (part : List ℕ) (p : Placed bytes offset part)
    → drop (offset - size_of_region_info) bytes ≡ part ++ p.after
drop-Placed bytes offset part p =
    let e : offset - size_of_region_info ≡ length p.before = omega (arith, p.place) in
    rw (e, p.whole) (drop-length p.before (part ++ p.after))

walk_step :
    (f : ℕ) (bytes : List ℕ) (offset next : ℕ) (caps pushed : List VfioRegionInfoCap)
    → size_of_region_info ≤ offset
    → read_link (drop (offset - size_of_region_info) bytes) ≡ some (pushed, next)
    → walk (suc f) bytes offset caps ≡ walk f bytes next (caps ++ pushed)
unfolding walk
walk_step f bytes offset next caps pushed h e = ground arith

walk_stop :
    (f : ℕ) (bytes : List ℕ) (offset : ℕ) (caps : List VfioRegionInfoCap)
    → offset < size_of_region_info
    → walk (suc f) bytes offset caps ≡ ok caps
unfolding walk
walk_stop f bytes offset caps h = ground arith

walk_chain :
    (bytes : List ℕ) (n offset f : ℕ) (caps before : List VfioRegionInfoCap)
    → Chain bytes n offset caps
    → n < f
    → walk f bytes offset before ≡ ok (before ++ caps)
walk_chain bytes n offset zero caps before c h = elim h [ ]
walk_chain bytes n offset (suc f) caps before (stop low) h =
    walk_stop f bytes offset before low ∙ ap ok (sym (append-nil before))
walk_chain bytes n offset (suc f) caps before
      (link {n = m} {caps = rest} cap version next fit hv hn on p c) h =
    walk_step f bytes offset next before (cap ∷ []) (omega (arith, p.place)) (
      rw (drop-Placed bytes offset (encode_cap cap version next) p)
        (read_link-encode cap version next p.after fit hv hn))
    ∙ walk_chain bytes m next f rest (before ++ cap ∷ []) c (omega arith)
    ∙ ap ok (append_assoc before (cap ∷ []) rest)
walk_chain bytes n offset (suc f) caps before (skip {n = m} id version next big hi hv hn on p c) h =
    walk_step f bytes offset next before [] (omega (arith, p.place)) (
      rw (drop-Placed bytes offset (encode_header id version next) p)
        (read_link_unknown id version next p.after big hi hv hn))
    ∙ walk_chain bytes m next f caps (before ++ []) c (omega arith)
    ∙ ap (λ l. ok (l ++ caps)) (append-nil before)

Placed-within :
    (bytes : List ℕ) (offset : ℕ) (part : List ℕ)
    → Placed bytes offset part
    → offset + length part ≤ size_of_region_info + length bytes
Placed-within bytes offset part p = omega (
  arith,
  p.place,
  ap length p.whole,
  length-append p.before (part ++ p.after),
  length-append part p.after,
)

Chain-bound :
    (bytes : List ℕ) (n offset : ℕ) (caps : List VfioRegionInfoCap)
    → Chain bytes n offset caps
    → (n ≡ 0) ⊎ ((size_of_region_info ≤ offset) × (offset + n ≤ size_of_region_info + length bytes))
Chain-bound bytes n offset caps (stop low) = inl refl
Chain-bound bytes n offset caps (link {n = m} {caps = rest} cap version next fit hv hn on p c) =
    inr (
      omega (arith, p.place),
      omega (arith, p.place, Placed-within bytes offset _ p, Chain-bound bytes m next rest c),
    )
Chain-bound bytes n offset caps (skip {n = m} id version next big hi hv hn on p c) = inr (
  omega (arith, p.place),
  omega (arith, p.place, Placed-within bytes offset _ p, Chain-bound bytes m next caps c),
)

-- Where the bytes behind the vfio_region_info hold a chain of capabilities as the kernel's
-- interface lays it out, each link pointing further on or below the header to end the chain, links
-- of unknown ids among them, the loop of get_region_map ends within its fuel, two more than there
-- are bytes, and yields exactly the chain's known capabilities in order.
pub walk-Chain :
    (bytes : List ℕ) (n offset : ℕ) (caps : List VfioRegionInfoCap)
    → Chain bytes n offset caps
    → walk (length bytes + 2) bytes offset [] ≡ ok caps
walk-Chain bytes n offset caps c =
    walk_chain bytes n offset (length bytes + 2) caps [] c
      (omega (arith, Chain-bound bytes n offset caps c))
