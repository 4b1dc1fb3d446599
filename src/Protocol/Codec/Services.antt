-- ===== src/Protocol/Codec/Services.antt =====
-- The list of services that protocol/src/ldac_codec.c searches for the LDAC codec.
use native_ldac_xm5_windows.Prelude.{
  ltb, ◌==◌, if◌then◌else◌, if_rule, length, take-append, drop-append, length-append, ℕ, zero, suc,
  ◌+◌, ◌*◌, ◌/◌, ◌%◌, ◌≤◌, ◌<◌, ◌≡◌, refl, ◌∙◌, ◌&&◌, ◌||◌, Option, none, some, List, [], ◌∷◌, ◌++◌,
  arith,
}
use native_ldac_xm5_windows.Prelude.Masks.{byte_and-7, byte_and-60}
use native_ldac_xm5_windows.Protocol.Codec.{
  CodecStatus, codec_ok, codec_truncated, codec_not_found, codec_unsupported, LdacCapabilities,
  parse_codec_info, service_item, is_final, find_services, find_in_service_capabilities,
}

pub record Service : Type 0 where
  pub category : ℕ
  pub item : List ℕ

-- Services as they stand in a response, with what follows them.
unfoldable pub write_services : List Service → List ℕ → List ℕ
write_services [] tail = tail
write_services (s ∷ ss) tail = s.category ∷ length s.item ∷ (s.item ++ write_services ss tail)

-- The layout of the LDAC codec in a service: an audio codec of a vendor, with Sony's number and the
-- codec's, both from the lowest byte on, and then the four bits of the rates and the three of the
-- channel modes.
unfoldable pub ldac_codec : ℕ → List ℕ → Option LdacCapabilities
ldac_codec category (i0 ∷ i1 ∷ v0 ∷ v1 ∷ v2 ∷ v3 ∷ c0 ∷ c1 ∷ rates ∷ modes ∷ rest) =
    if category == 0x07
      && i0 / 16 == 0
      && i1 == 0xFF
      && v0 + 256 * v1 + 65536 * v2 + 16777216 * v3 == 0x12D
      && c0 + 256 * c1 == 0xAA
    then some (record { sample_rates = 4 * (rates / 4 % 16); channel_modes = modes % 8 })
    else none
ldac_codec category item = none

-- A service that is LDAC settles the matter: its capabilities are told, and they are unsupported if
-- it has no rate or no mode.
abbrev pub settled_by :
    Option LdacCapabilities → CodecStatus × LdacCapabilities → CodecStatus × LdacCapabilities
settled_by none more = more
settled_by (some c) more =
    (if c.sample_rates == 0 || c.channel_modes == 0 then codec_unsupported else codec_ok, c)

-- The reference: the first service that is LDAC, and `ending` where none is.
unfoldable pub first_service :
    List Service → CodecStatus → LdacCapabilities → CodecStatus × LdacCapabilities
first_service [] ending out = (ending, out)
first_service (s ∷ ss) ending out =
    settled_by (ldac_codec s.category s.item) (first_service ss ending out)

-- What one round of the search makes of a service, and how it goes on.
item_settles :
    (category : ℕ) (item : List ℕ) (out : LdacCapabilities)
    (more : LdacCapabilities → CodecStatus × LdacCapabilities)
    → let (status, found) = service_item category item out in
      (if is_final status then (status, found) else more found)
      ≡ settled_by (ldac_codec category item) (more out)
unfolding service_item parse_codec_info ldac_codec
item_settles category [] out more = refl
item_settles category (a ∷ []) out more = refl
item_settles category (a ∷ b ∷ []) out more = ground arith
item_settles category (a ∷ b ∷ c ∷ []) out more = ground arith
item_settles category (a ∷ b ∷ c ∷ d ∷ []) out more = ground arith
item_settles category (a ∷ b ∷ c ∷ d ∷ e ∷ []) out more = ground arith
item_settles category (a ∷ b ∷ c ∷ d ∷ e ∷ f ∷ []) out more = ground arith
item_settles category (a ∷ b ∷ c ∷ d ∷ e ∷ f ∷ g ∷ []) out more = ground arith
item_settles category (a ∷ b ∷ c ∷ d ∷ e ∷ f ∷ g ∷ h ∷ []) out more = ground arith
item_settles category (a ∷ b ∷ c ∷ d ∷ e ∷ f ∷ g ∷ h ∷ i ∷ []) out more = ground arith
item_settles category (a ∷ b ∷ c ∷ d ∷ e ∷ f ∷ g ∷ h ∷ rates ∷ modes ∷ rest) out more =
    rw (byte_and-60 rates, byte_and-7 modes) (ground arith)

-- What may follow whole services: nothing, or the beginning of one.
pub data Ending : List ℕ → CodecStatus → Type 0 where
  whole : Ending [] codec_not_found
  no_size : (category : ℕ) → Ending (category ∷ []) codec_truncated
  short_item :
      (category size : ℕ) (item : List ℕ)
      → length item < size
      → Ending (category ∷ size ∷ item) codec_truncated

find_services-Ending :
    (fuel : ℕ) (tail : List ℕ) (status : CodecStatus) (out : LdacCapabilities)
    → Ending tail status
    → length tail ≤ fuel
    → find_services fuel tail out ≡ (status, out)
unfolding find_services
find_services-Ending zero _ _ out whole h = refl
find_services-Ending (suc fuel) _ _ out whole h = refl
find_services-Ending zero _ _ out (no_size c) h = refl
find_services-Ending (suc fuel) _ _ out (no_size c) h = refl
find_services-Ending zero _ _ out (short_item c n item lt) h = refl
find_services-Ending (suc fuel) _ _ out (short_item c n item lt) h = ground (arith, lt)

services_found :
    (fuel : ℕ) (ss : List Service) (tail : List ℕ) (status : CodecStatus) (out : LdacCapabilities)
    → Ending tail status
    → length (write_services ss tail) ≤ fuel
    → find_services fuel (write_services ss tail) out ≡ first_service ss status out
unfolding find_services write_services first_service
services_found fuel [] tail status out e h = find_services-Ending fuel tail status out e h
services_found zero (s ∷ ss) tail status out e h = absurd (omega arith)
services_found (suc fuel) (s ∷ ss) tail status out e h =
    let rest = write_services ss tail in
    let size = length-append s.item rest in
    let goal = settled_by (ldac_codec s.category s.item) (first_service ss status out) in
    let ih = services_found fuel ss tail status out e (omega (arith, size)) in
    rw (take-append s.item rest, drop-append s.item rest)
      (if_rule (λ x. x ≡ goal) (ltb (length (s.item ++ rest)) (length s.item)) _ _
        (λ cut. ground (arith, size, cut))
        (λ fits.
          item_settles s.category s.item out (λ found. find_services fuel rest found)
          ∙ (λ i. settled_by (ldac_codec s.category s.item) (ih i))))

-- The search reads a list of services, and what follows it, as the first service that is LDAC: its
-- rates and modes are told, as supported if it has at least one of each, and as unsupported
-- otherwise. Where no service is LDAC, it says that there is none if the list is whole, and that
-- the list is cut if it ends within a service.
pub find-write_services :
    (ss : List Service) (tail : List ℕ) (status : CodecStatus) (out : LdacCapabilities)
    → Ending tail status
    → find_in_service_capabilities (write_services ss tail) out ≡ first_service ss status out
unfolding find_in_service_capabilities
find-write_services ss tail status out e =
    services_found (length (write_services ss tail)) ss tail status out e (omega arith)
