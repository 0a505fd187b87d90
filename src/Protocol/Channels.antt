-- ===== src/Protocol/Channels.antt =====
-- include/uf/protocol/channels.hpp: the channels of a frame, and the cadence of full and empty
-- packets.
pub mod Cadence
pub mod Map
use userface.Base.{
  ℕ, zero, suc, ◌+◌, ◌-◌, ◌*◌, ◌/◌, Bool, true, false, u32, leb, ltb, if◌then◌else◌, List, [], ◌∷◌,
  ◌++◌,
}
use userface.Protocol.Rate.{Speed, x1, x2, x4, speed_for_rate}

pub data BwLimit : Type 0 where
  send_all no_adat2 analog_spdif analog_only : BwLimit

unfoldable pub frames_per_packet : Speed → ℕ
frames_per_packet x1 = 8
frames_per_packet x2 = 16
frames_per_packet x4 = 32

unfoldable pub avg_frames_per_cycle : ℕ → ℕ
avg_frames_per_cycle rate_hz = rate_hz / 8000

abbrev pub blocking_ring_len : ℕ
blocking_ring_len = 640

unfoldable pub blocking_full_count : ℕ → Speed → ℕ
blocking_full_count rate_hz s = u32 (rate_hz * blocking_ring_len) / u32 (8000 * frames_per_packet s)

unfoldable pub is_full_packet : ℕ → ℕ → ℕ → Bool
is_full_packet i full_count ring_len =
    ltb (u32 (i * full_count) / ring_len) (u32 (u32 (i + 1) * full_count) / ring_len)

unfoldable pub analog_channels : BwLimit → ℕ
analog_channels analog_only = 8
analog_channels _ = 10

unfoldable pub spdif_channels : BwLimit → ℕ
spdif_channels analog_only = 0
spdif_channels _ = 2

-- The ADAT channels at single speed.
unfoldable pub adat_base : BwLimit → ℕ
adat_base send_all = 16
adat_base no_adat2 = 8
adat_base _ = 0

unfoldable pub adat_channels : BwLimit → Speed → ℕ
adat_channels m x1 = adat_base m
adat_channels m x2 = adat_base m / 2
adat_channels m x4 = 0

unfoldable pub pcm_channels : Speed → BwLimit → ℕ
pcm_channels s m = analog_channels m + spdif_channels m + adat_channels m s

unfoldable pub pcm_channels_for_rate : ℕ → BwLimit → ℕ
pcm_channels_for_rate hz m = pcm_channels (speed_for_rate hz) m

unfoldable pub data_block_quadlets : Speed → BwLimit → ℕ
data_block_quadlets s m = pcm_channels s m

unfoldable pub packet_payload_bytes : Speed → BwLimit → ℕ
packet_payload_bytes s m = pcm_channels s m * 4 * frames_per_packet s

unfoldable pub bandwidth_units : Speed → BwLimit → ℕ
bandwidth_units s m = 25 + packet_payload_bytes s m

pub data Direction : Type 0 where
  capture playback : Direction

pub data ChannelKind : Type 0 where
  analog phones spdif adat : ChannelKind

pub record ChannelSlot : Type 0 where
  pub kind : ChannelKind
  pub index : ℕ

abbrev pub slot_of : ChannelKind → ℕ → ChannelSlot
slot_of kind index = record { kind = kind; index = index }

-- The loop that appends the channels of a kind: `left` of them, from number `i`.
unfoldable pub push_from : ChannelKind → ℕ → ℕ → List ChannelSlot
push_from kind i zero = []
push_from kind i (suc left) = slot_of kind i ∷ push_from kind (i + 1) left

-- The slots 8 and 9 of the analog channels.
unfoldable pub push_pair : Direction → List ChannelSlot
push_pair capture = slot_of analog 9 ∷ slot_of analog 10 ∷ []
push_pair playback = slot_of phones 1 ∷ slot_of phones 2 ∷ []

unfoldable pub channel_map : Direction → Speed → BwLimit → List ChannelSlot
channel_map dir s m =
    let an = analog_channels m in
    push_from analog 1 (if leb an 8 then an else 8)
    ++ (if leb 10 an then push_pair dir else [])
    ++ push_from spdif 1 (spdif_channels m)
    ++ push_from adat 1 (adat_channels m s)

-- The four groups of `channel_group_name`, with `Mic`.
pub data GroupName : Type 0 where
  mic_group analog_group phones_group spdif_group adat_group : GroupName

unfoldable pub group_of_kind : ChannelKind → ℕ → GroupName
group_of_kind analog index = if leb 9 index then mic_group else analog_group
group_of_kind phones index = phones_group
group_of_kind spdif index = spdif_group
group_of_kind adat index = adat_group

unfoldable pub channel_group_name : ChannelSlot → GroupName
channel_group_name sl = group_of_kind sl.kind sl.index

-- The names compare as strings.
pub same_name : GroupName → GroupName → Bool
same_name mic_group mic_group = true
same_name analog_group analog_group = true
same_name phones_group phones_group = true
same_name spdif_group spdif_group = true
same_name adat_group adat_group = true
same_name _ _ = false

pub record ChannelGroup : Type 0 where
  pub name : GroupName
  pub start : ℕ
  pub count : ℕ

-- `groups` after channel `i`, of group `g`: its last group grows or a new one follows it.
unfoldable pub add_channel : List ChannelGroup → ℕ → GroupName → List ChannelGroup
add_channel [] i g = record { name = g; start = i + 1; count = 1 } ∷ []
add_channel (x ∷ []) i g =
    if same_name x.name g
    then record x { count = x.count + 1 } ∷ []
    else x ∷ record { name = g; start = i + 1; count = 1 } ∷ []
add_channel (x ∷ y ∷ rest) i g = x ∷ add_channel (y ∷ rest) i g

-- The loop over the map, from channel `i`.
unfoldable pub add_channels : List ChannelGroup → ℕ → List ChannelSlot → List ChannelGroup
add_channels groups i [] = groups
add_channels groups i (c ∷ cs) =
    add_channels (add_channel groups i (channel_group_name c)) (i + 1) cs

unfoldable pub channel_groups : Direction → Speed → BwLimit → List ChannelGroup
channel_groups dir s m = add_channels [] 0 (channel_map dir s m)
