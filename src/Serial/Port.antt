-- ===== src/Serial/Port.antt =====
-- How `open_serial_port` of src/serial.c sets the port. The flags of termios.h are parameters.
use open_wrt_sdk.Common.{
  ℕ, ◌<◌, ◌≡◌, ◌≢◌, leb, ◌==◌, if◌then◌else◌, List, length, bit_or, Option, none, some, arith, Bool,
  true, false, [], ◌∷◌,
}
use open_wrt_sdk.Outcome.{Outcome, ok, fault}

-- The flags for the rates, by the rate, and the other flags.
pub record Termios : Type 0 where
  pub rate_flag : ℕ → ℕ
  pub cs5 : ℕ
  pub cs6 : ℕ
  pub cs7 : ℕ
  pub cs8 : ℕ
  pub cstopb : ℕ
  pub parenb : ℕ
  pub parodd : ℕ
  pub clocal : ℕ
  pub cread : ℕ
  pub ignpar : ℕ

-- The rates that have a case in the `switch`.
abbrev pub rates : List ℕ
rates =
    115200 ∷ 57600 ∷ 38400 ∷ 19200 ∷ 9600 ∷ 4800 ∷ 2400 ∷ 1800 ∷ 1200 ∷ 600 ∷ 300 ∷ 200 ∷ 150 ∷ 134
    ∷ 110 ∷ 75 ∷ 50 ∷ []

abbrev pub is_rate : ℕ → List ℕ → Bool
is_rate rate [] = false
is_rate rate (r ∷ rates) = let rest = is_rate rate rates in if rate == r then true else rest

unfoldable pub baud : Termios → ℕ → ℕ
baud t rate = if is_rate rate rates then t.rate_flag rate else t.rate_flag 57600

unfoldable pub data_bits_flag : Termios → ℕ → ℕ
data_bits_flag t bits =
    if bits == 7 then t.cs7 else if bits == 6 then t.cs6 else if bits == 5 then t.cs5 else t.cs8

unfoldable pub stop_bits_flag : Termios → ℕ → ℕ
stop_bits_flag t bits = if bits == 2 then t.cstopb else 0

-- `PARITYON` and `PARITY`
unfoldable pub parity_flags : Termios → ℕ → ℕ × ℕ
parity_flags t parity =
    if parity == 1 then (t.parenb, t.parodd) else if parity == 2 then (t.parenb, 0) else (0, 0)

-- `newtio`
pub record Settings : Type 0 where
  pub c_cflag : ℕ
  pub c_iflag : ℕ
  pub c_oflag : ℕ
  pub c_lflag : ℕ
  pub vmin : ℕ
  pub vtime : ℕ

unfoldable pub settings : Termios → ℕ → ℕ → ℕ → ℕ → Settings
settings t rate bits stops parity = record {
  c_cflag =
      bit_or
        (bit_or
          (bit_or
            (bit_or (bit_or (bit_or (baud t rate) (data_bits_flag t bits)) (stop_bits_flag t stops))
              (parity_flags t parity).0)
            (parity_flags t parity).1)
          t.clocal)
        t.cread;
  c_iflag = t.ignpar;
  c_oflag = 0;
  c_lflag = 0;
  vmin = 0;
  vtime = 0;
}

-- `sizeof (devicename)`
abbrev pub name_size : ℕ
name_size = 80

-- The descriptor, 0 where `open` fails, and what the port is set to. `strcpy` writes the name and a
-- NUL.
unfoldable pub open_serial_port :
    Termios → List ℕ → ℕ → ℕ → ℕ → ℕ → Option ℕ → Outcome (ℕ × Option Settings)
open_serial_port t device rate bits stops parity opened =
    if leb name_size (length device) then fault else elim opened [
      | none ↦ ok (0, none)
      | some fd ↦ ok (fd, some (settings t rate bits stops parity))
    ]

-- Settings that have no case are those of 57600 baud, 8 data bits, 1 stop bit and no parity.
settings_default :
    (t : Termios) (rate bits stops parity : ℕ)
    → is_rate rate rates ≡ false
    → bits < 5
    → stops ≢ 2
    → 2 < parity
    → settings t rate bits stops parity ≡ settings t 57600 8 1 0
unfolding settings baud data_bits_flag stop_bits_flag parity_flags
settings_default t rate bits stops parity unknown few other none_set = ground arith
