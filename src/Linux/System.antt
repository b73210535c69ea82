-- ===== src/Linux/System.antt =====
-- The system's readings: the rest of src/linux.c but `get_loadinfo` and `get_diskinfo`. What the files
-- hold and the system calls return are arguments.
use open_wrt_sdk.Common.{
  ℕ, ◌+◌, ◌-◌, ◌%◌, ◌^◌, ◌<◌, ◌≡◌, refl, arith, Bool, false, ◌==◌, if◌then◌else◌, List, [], ◌∷◌,
  ◌++◌, map, take, zeros, get_or, Option, none, some,
}
use open_wrt_sdk.Linux.{Strings, read_file, read_value, read_values}

-- The first parameter is `atof` of the text times 100, as a whole number.
unfoldable pub get_system_uptime : (List ℕ → ℕ) → Option (List ℕ) → ℕ
get_system_uptime hundredths file = elim (read_file file 128) [
  | none ↦ 2 ^ 32 - 1
  | some text ↦ hundredths text % 2 ^ 32
]

-- The static `uptime_start`, then the result.
unfoldable pub get_process_uptime : ℕ → ℕ → ℕ × ℕ
get_process_uptime uptime_start uptime_now =
    let start = if uptime_start == 0 then uptime_now else uptime_start in
    (start, (uptime_now + 2 ^ 32 - start) % 2 ^ 32)

-- The first call returns 0, and a later one the time since then, also where the hundredths have
-- passed 2 ^ 32 in between.
get_process_uptime_lem :
    (start elapsed : ℕ)
    → 0 < start
    → start < 2 ^ 32
    → elapsed < 2 ^ 32
    → (get_process_uptime 0 start ≡ (start, 0))
      × (get_process_uptime start ((start + elapsed) % 2 ^ 32) ≡ (start, elapsed))
unfolding get_process_uptime
get_process_uptime_lem start elapsed some_time small near =
    let running : (start == 0) ≡ false = ground arith in
    let none_passed : (start + 2 ^ 32 - start) % 2 ^ 32 ≡ 0 = omega arith in
    let passed : ((start + elapsed) % 2 ^ 32 + 2 ^ 32 - start) % 2 ^ 32 ≡ elapsed = omega arith in
    (rw none_passed refl, rw (running, passed) refl)

pub record MemInfo : Type 0 where
  pub total : ℕ
  pub free : ℕ
  pub shared : ℕ
  pub buffers : ℕ
  pub cached : ℕ

pub record CpuInfo : Type 0 where
  pub user : ℕ
  pub nice : ℕ
  pub system : ℕ
  pub idle : ℕ
  pub irqs : ℕ
  pub cntxts : ℕ

-- The counters of one interface, a place of each array.
pub record NetInfo : Type 0 where
  pub status : ℕ
  pub rx_bytes : ℕ
  pub rx_packets : ℕ
  pub rx_errors : ℕ
  pub rx_drops : ℕ
  pub tx_bytes : ℕ
  pub tx_packets : ℕ
  pub tx_errors : ℕ
  pub tx_drops : ℕ

-- `bufsiz` is BUFSIZ of the C library.
module _ (s : Strings) (bufsiz : ℕ) where
  unfoldable pub get_meminfo : Option (List ℕ) → MemInfo
  get_meminfo file = elim (read_file file bufsiz) [
    | none ↦ record { total = 0; free = 0; shared = 0; buffers = 0; cached = 0 }
    | some text ↦ record {
      total = read_value s text (0x4d ∷ 0x65 ∷ 0x6d ∷ 0x54 ∷ 0x6f ∷ 0x74 ∷ 0x61 ∷ 0x6c ∷ 0x3a ∷ []);
      free = read_value s text (0x4d ∷ 0x65 ∷ 0x6d ∷ 0x46 ∷ 0x72 ∷ 0x65 ∷ 0x65 ∷ 0x3a ∷ []);
      shared =
          read_value s text
            (0x4d ∷ 0x65 ∷ 0x6d ∷ 0x53 ∷ 0x68 ∷ 0x61 ∷ 0x72 ∷ 0x65 ∷ 0x64 ∷ 0x3a ∷ []);
      buffers = read_value s text (0x42 ∷ 0x75 ∷ 0x66 ∷ 0x66 ∷ 0x65 ∷ 0x72 ∷ 0x73 ∷ 0x3a ∷ []);
      cached = read_value s text (0x43 ∷ 0x61 ∷ 0x63 ∷ 0x68 ∷ 0x65 ∷ 0x64 ∷ 0x3a ∷ []);
    }
  ]

  unfoldable pub get_cpuinfo : Option (List ℕ) → CpuInfo
  get_cpuinfo file = elim (read_file file bufsiz) [
    | none ↦ record { user = 0; nice = 0; system = 0; idle = 0; irqs = 0; cntxts = 0 }
    | some text ↦
        let values = read_values s text (0x63 ∷ 0x70 ∷ 0x75 ∷ []) 4 in
        record {
          user = get_or values 0 0;
          nice = get_or values 1 0;
          system = get_or values 2 0;
          idle = get_or values 3 0;
          irqs = read_value s text (0x69 ∷ 0x6e ∷ 0x74 ∷ 0x72 ∷ []);
          cntxts = read_value s text (0x63 ∷ 0x74 ∷ 0x78 ∷ 0x74 ∷ []);
        }
  ]

-- `ioctl` of SIOCGIFFLAGS: `none` where it fails or there is no socket, else IFF_UP and IFF_RUNNING.
unfoldable pub status_of : Option (Bool × Bool) → ℕ
status_of none = 4
status_of (some (up, running)) = if up then (if running then 1 else 7) else 2

-- `name`, 15 characters of the interface and the colon.
unfoldable pub device_name : List ℕ → List ℕ
device_name interface = take 15 (interface ++ 0x3a ∷ [])

unfoldable pub values_of : Strings → Option (List ℕ) → List ℕ → List ℕ
values_of s file interface = elim file [
  | none ↦ zeros 16
  | some text ↦ read_values s text (device_name interface) 16
]

-- A round of the loop, by the text that was read.
unfoldable pub net_info : Strings → Option (List ℕ) → List ℕ → Option (Bool × Bool) → NetInfo
net_info s text interface flags =
    let values = values_of s text interface in
    record {
      status = status_of flags;
      rx_bytes = get_or values 0 0;
      rx_packets = get_or values 1 0;
      rx_errors = get_or values 2 0;
      rx_drops = get_or values 3 0;
      tx_bytes = get_or values 8 0;
      tx_packets = get_or values 9 0;
      tx_errors = get_or values 10 0;
      tx_drops = get_or values 11 0;
    }

-- The interfaces with what `ioctl` says of each.
unfoldable pub get_netinfo :
    Strings → ℕ → Option (List ℕ) → List (List ℕ × Option (Bool × Bool)) → List NetInfo
get_netinfo s bufsiz file interfaces =
    map (λ i. net_info s (read_file file bufsiz) i.0 i.1) interfaces
