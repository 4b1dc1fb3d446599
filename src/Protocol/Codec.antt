-- ===== src/Protocol/Codec.antt =====
-- protocol/include/ldac_native/ldac_codec.h and protocol/src/ldac_codec.c: the LDAC codec in the
-- capabilities of a remote endpoint, and the choice of a configuration. A function that writes
-- through `out` takes what stands there and returns it with its status.
pub mod Choice
pub mod Services
pub mod Payload
use native_ldac_xm5_windows.Prelude.{
  ltb, leb, ◌==◌, if◌then◌else◌, Enum, ◌is◌, length, byte_and, drop, take, ℕ, zero, suc, ◌+◌, ◌*◌,
  ◌/◌, ◌%◌, Bool, not, ◌&&◌, ◌||◌, List, [], ◌∷◌,
}

pub data CodecStatus : Type 0 where
  codec_ok codec_truncated codec_not_found codec_unsupported : CodecStatus

instance abbrev pub codec_status_enum : Enum CodecStatus
codec_status_enum = record {
  value = elim [ codec_ok ↦ 0 | codec_truncated ↦ 2 | codec_not_found ↦ 3 | codec_unsupported ↦ 4 ];
}

pub record LdacCapabilities : Type 0 where
  pub sample_rates : ℕ
  pub channel_modes : ℕ

pub record LdacConfiguration : Type 0 where
  pub sample_rate : ℕ
  pub channel_mode : ℕ

-- The bits of sample rates and channel modes.
abbrev pub sf_44100 : ℕ
sf_44100 = 0x20

abbrev pub sf_48000 : ℕ
sf_48000 = 0x10

abbrev pub sf_88200 : ℕ
sf_88200 = 0x08

abbrev pub sf_96000 : ℕ
sf_96000 = 0x04

abbrev pub sf_all : ℕ
sf_all = 0x3C

abbrev pub cm_stereo : ℕ
cm_stereo = 0x01

abbrev pub cm_dual : ℕ
cm_dual = 0x02

abbrev pub cm_mono : ℕ
cm_mono = 0x04

abbrev pub cm_all : ℕ
cm_all = 0x07

-- The `switch` on the preferred rate.
abbrev pub preferred_bit : ℕ → ℕ
preferred_bit hz =
    if hz == 44100
    then sf_44100
    else if hz == 48000
    then sf_48000
    else if hz == 88200
    then sf_88200
    else if hz == 96000
    then sf_96000
    else 0

unfoldable pub choose_sample_rate : ℕ → ℕ → ℕ
choose_sample_rate rates preferred_hz =
    if not (preferred_bit preferred_hz == 0)
      && not (byte_and rates (preferred_bit preferred_hz) == 0)
    then preferred_bit preferred_hz
    else if not (byte_and rates sf_96000 == 0)
    then sf_96000
    else if not (byte_and rates sf_88200 == 0)
    then sf_88200
    else if not (byte_and rates sf_48000 == 0)
    then sf_48000
    else if not (byte_and rates sf_44100 == 0)
    then sf_44100
    else 0

unfoldable pub choose_channel_mode : ℕ → ℕ
choose_channel_mode modes =
    if not (byte_and modes cm_stereo == 0)
    then cm_stereo
    else if not (byte_and modes cm_dual == 0)
    then cm_dual
    else if not (byte_and modes cm_mono == 0)
    then cm_mono
    else 0

abbrev pub build_codec_info : ℕ → ℕ → List ℕ
build_codec_info sample_rates channel_modes =
    0x2D ∷ 0x01 ∷ 0x00 ∷ 0x00 ∷ 0xAA ∷ 0x00 ∷ sample_rates ∷ channel_modes ∷ []

-- The two words are put together of different bytes, so `|` is the sum.
unfoldable pub parse_codec_info : List ℕ → LdacCapabilities → CodecStatus × LdacCapabilities
parse_codec_info (v0 ∷ v1 ∷ v2 ∷ v3 ∷ c0 ∷ c1 ∷ rates ∷ modes ∷ rest) out =
    let vendor_id = v0 + v1 * 256 + v2 * 65536 + v3 * 16777216 in
    let codec_id = c0 + c1 * 256 in
    let found : LdacCapabilities = record {
      sample_rates = byte_and rates sf_all;
      channel_modes = byte_and modes cm_all;
    } in
    if not (vendor_id == 0x12D) || not (codec_id == 0xAA)
    then (codec_not_found, out)
    else if found.sample_rates == 0 || found.channel_modes == 0
    then (codec_unsupported, found)
    else (codec_ok, found)
parse_codec_info info out = (codec_truncated, out)

-- One service of the list: what its item says of LDAC, where it is an audio codec of a vendor.
unfoldable pub service_item : ℕ → List ℕ → LdacCapabilities → CodecStatus × LdacCapabilities
service_item category (i0 ∷ i1 ∷ info) out =
    if category == 0x07 && i0 / 16 == 0x00 && i1 == 0xFF && leb 8 (length info)
    then parse_codec_info info out
    else (codec_not_found, out)
service_item category item out = (codec_not_found, out)

-- The status that ends the loop.
abbrev pub is_final : CodecStatus → Bool
is_final status = status is codec_ok || status is codec_unsupported

-- The loop over what is left of the capabilities. A round takes two bytes at least.
unfoldable pub find_services : ℕ → List ℕ → LdacCapabilities → CodecStatus × LdacCapabilities
find_services fuel [] out = (codec_not_found, out)
find_services zero (b ∷ bs) out = (codec_truncated, out)
find_services (suc fuel) (category ∷ []) out = (codec_truncated, out)
find_services (suc fuel) (category ∷ item_size ∷ rest) out =
    let (status, found) = service_item category (take item_size rest) out in
    let more = find_services fuel (drop item_size rest) found in
    if ltb (length rest) item_size
    then (codec_truncated, out)
    else if is_final status
    then (status, found)
    else more

unfoldable pub find_in_service_capabilities :
    List ℕ → LdacCapabilities → CodecStatus × LdacCapabilities
unfolding find_services
find_in_service_capabilities capabilities out = find_services (length capabilities) capabilities out

unfoldable pub choose_configuration :
    LdacCapabilities → LdacCapabilities → ℕ → CodecStatus × LdacConfiguration
choose_configuration local remote preferred_hz =
    let rates = byte_and (byte_and local.sample_rates remote.sample_rates) sf_all in
    let modes = byte_and (byte_and local.channel_modes remote.channel_modes) cm_all in
    let rate = choose_sample_rate rates preferred_hz in
    let mode = choose_channel_mode modes in
    if rate == 0 || mode == 0
    then (codec_unsupported, record { sample_rate = 0; channel_mode = 0 })
    else (codec_ok, record { sample_rate = rate; channel_mode = mode })

-- `x != 0`, `x & all == x` and `x & (x - 1) == 0`: one bit of the mask.
abbrev pub single_bit : ℕ → ℕ → Bool
single_bit x all = not (x == 0) && byte_and x all == x && byte_and x ((x + 255) % 256) == 0

-- The empty list stands for the size 0 of a refusal.
unfoldable pub build_set_configuration_payload : ℕ → ℕ → ℕ → LdacConfiguration → List ℕ
build_set_configuration_payload out_size remote_seid local_seid c =
    if ltb out_size 16
      || remote_seid == 0
      || ltb 0x3F remote_seid
      || local_seid == 0
      || ltb 0x3F local_seid
      || not (single_bit c.sample_rate sf_all)
      || not (single_bit c.channel_mode cm_all)
    then []
    else (remote_seid * 4 % 256)
      ∷ (local_seid * 4 % 256)
      ∷ 0x01
      ∷ 0x00
      ∷ 0x07
      ∷ 0x0A
      ∷ 0x00
      ∷ 0xFF
      ∷ build_codec_info c.sample_rate c.channel_mode

unfoldable pub sample_rate_to_hz : ℕ → ℕ
sample_rate_to_hz sample_rate_bit =
    if sample_rate_bit == sf_44100
    then 44100
    else if sample_rate_bit == sf_48000
    then 48000
    else if sample_rate_bit == sf_88200
    then 88200
    else if sample_rate_bit == sf_96000
    then 96000
    else 0

unfoldable pub samples_per_frame : ℕ → ℕ
samples_per_frame sample_rate_bit =
    if sample_rate_bit == sf_44100 || sample_rate_bit == sf_48000
    then 128
    else if sample_rate_bit == sf_88200 || sample_rate_bit == sf_96000
    then 256
    else 0
