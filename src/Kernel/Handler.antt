-- ===== src/Kernel/Handler.antt =====
-- `xdp_filter_func` of fully_in-kernel/main/xdp_prog_kern.c. What it prints is left out.
use fide.Base.{ℕ, ◌+◌, Option, none, some, ltb, ◌==◌, if◌then◌else◌, ◌>>=◌, length}
use fide.Packet.{Bytes, load16, load32, bpf_htons}
use fide.Kernel.Types.{DataValue, State, Verdict, drop, pass, redirect_map}
use fide.Kernel.Interval.{count_packet, record_source, claim_interval, end_interval}

abbrev pub sizeof_ethhdr : ℕ
sizeof_ethhdr = 14

abbrev pub sizeof_iphdr : ℕ
sizeof_iphdr = 20

abbrev pub eth_p_ip : ℕ
eth_p_ip = 0x0800

-- `none` is undefined behaviour; else the verdict and the state after the packet.
abbrev pub Run : Type 0
Run = Option (Verdict × State)

-- From the lookup of the time stamp on; `d` is the interval's counts, already stored in `s`.
unfoldable pub check_interval : ℕ → DataValue → State → Run
check_interval ts d s = elim s.timestamp [
  | none ↦ some (pass, s)
  | some stamp ↦
      let (stamp', ended) = claim_interval ts stamp in
      if ended
      then (do
        (d', m, g) ← end_interval d s.logger s.globals
        some (
          redirect_map s,
          record s { timestamp = some stamp'; interval = some d'; logger = m; globals = g },
        ))
      else some (redirect_map s, record s { timestamp = some stamp' })
]

-- From the lookup of the interval's counts on, for a source that is not listed.
unfoldable pub count_source : ℕ → ℕ → State → Run
count_source ts saddr s = elim s.interval [
  | none ↦ some (pass, s)
  | some d ↦ do
    d' ← count_packet d
    check_interval ts d' (record s { interval = some d'; logger = record_source saddr s.logger })
]

unfoldable pub xdp_filter_func : ℕ → Bytes → State → Run
xdp_filter_func ts packet s = if ltb (length packet) sizeof_ethhdr then some (pass, s) else (do
  h_proto ← load16 packet 12
  if h_proto == bpf_htons eth_p_ip
      then if ltb (length packet) (sizeof_ethhdr + sizeof_iphdr) then some (pass, s) else (do
        saddr ← load32 packet (sizeof_ethhdr + 12)
        elim (s.blacklist (record { prefixlen = 32; address = saddr })) [
          | some _ ↦ some (drop, s)
          | none ↦ count_source ts saddr s
        ])
      else some (redirect_map s, s))
