-- ===== src/Lib.antt =====
-- hello_old: a build script seals a text into a binary, and the binary reveals it to who knows the
-- password once the network says that its time has come.
--
-- The parts, and where they are modelled:
--   * src/rustyvm.rs, a byte-code machine: Vm. Vm.Machine has the state of `run` as a record and
--     one function per block of its loop, Vm.Run the loop. Vm.Reference is an independent machine
--     on a list; View, Slots, Refinement and Dispatch relate the two, Underflow uses it; Typed has
--     the types of what the machine works on.
--   * build.rs, `Rng` and `gen_vm_program`: Build. The generator is its 64-bit state, and each
--     part of the program is a function from a state to bytes and the next state. Build.Random has
--     what the crates are given for random numbers, and Build.Hex how a hash is printed.
--   * src/serpent_siv.rs: Siv. The block cipher and its CMAC are the parameter `Primitives`.
--   * src/crypto.rs, and the functions that build.rs has for itself: Crypto. Suite is the parameter
--     for the crates (hashes, HMAC, Argon2, ChaCha20Poly1305, the key encapsulations and the
--     signatures) with what they document as its laws.
--   * build.rs, `main`: Archive.Artifacts, from the random draws to the files of OUT_DIR.
--   * src/main.rs, `main`: Archive.Unlock, from the first check to the text. Each `match` or `if`
--     that ends the run is a step of the type `Flow`; a run ends in `revealed`, a refusal,
--     self-destruction, a panic or an exit. Archive.Frame is the layout of the sealed payload.
--     Archive.Honest follows the files of the build through the stages; Archive.Gate reads the
--     stages off a run that reveals. Archive.Buffer has the sizes of `SecBuf`, Archive.Memory its
--     calls on memory, for a length that does not wrap. Archive.Observe makes what a run observes
--     out of the readings of the host and the network, with the functions of Host, Clock, Seccomp
--     and Memory; Archive.Checks has what each check shows, and Archive.Checked goes back from a
--     shown text to the readings, and through Clock.Servers to the query that gave the time.
--   * src/main.rs, `civil_from_days`, `consensus` and `hacker_ntp_report`, src/ntp.rs, and
--     `ClockAnchor` of src/harden.rs: Clock. Clock.Count has the count of days of the calendar,
--     Clock.Date its dates, and Clock.Gregorian that `civil_from_days` gives them. Clock.Ntp has the
--     packet and the reply, Clock.Servers the loop of `sync_all` and its threads as a step relation,
--     and Clock.Arrival that `consensus` does not see the order in which the answers come.
--   * the metadata, which build.rs writes and `parse_meta` and `format_unix` of src/main.rs read
--     and print: Meta. Meta.Text has the functions of `str`.
--   * src/tui.rs: Tui, with strings as lists of code points. Width, Wrap, Pages and Keys are its
--     pure functions and loops. Screen has what a drawing does as a list of events, and a small
--     monad that passes the state of the random generator; Effects, Prompts, Panel, Burning,
--     Dialog and Show are the drawing functions in it, Session the screens of src/main.rs that are
--     made of them. Reader relates `show` to the plain loop of Pages. Pace bounds the time between
--     heartbeats, with the waits for keys as long as Waits says, and brings in the watchdog;
--     Bounds has where the cursor goes, and Story what a row of the screen shows.
--   * src/seccomp.rs: Seccomp. The filter program is data; the kernel that evaluates it is the
--     parameter `Kernel`.
--   * src/pass.rs, src/watchdog.rs, the rest of src/harden.rs, and src/signal.rs: Host, as
--     functions of the reads, of what each round of the watchdog sees, and of the texts of /proc.
--     Host.Lines has the functions of `str` for these. Host.Threads has the watchdog and `main`
--     side by side, as a step relation on the state that they share.
--   * `flush_mem` and `burn_cycles` of src/crypto.rs and `timing_equalize` of src/main.rs:
--     Crypto.Flush.
-- The build emits the program that the machine runs, wraps keys with Crypto, encrypts with Siv, and
-- `unlock` undoes this in the same order.
--
-- Numbers: bytes and words are native numbers with the wrap-around written out. A `usize` has 64
-- bits. A panic is a value, since the release profile aborts.
--
-- Fuel: the machine's loop has one more round than the program has bytes, and its instruction
-- pointer grows in each; the loops over bytes have a round for each byte and take at least one.
-- `no_fuel` is the end of a machine that runs out of it.
--
-- Floating point: f32 in the drawings and f64 in the clocks are interfaces (`F32` of Tui.Panel,
-- `F64` of Clock.Ntp) with the operations that the source calls. A theorem that needs the order of
-- f64 takes it as `Orders`.
--
-- More fuel: `decimal` has as much as the number, and divides it by ten; `flush_mem` has the
-- length of the buffer. The loops over keys and polls are on the list of what the polls give, and
-- a call that the list does not finish still waits. The wait of `sync_all` has no fuel: it is a
-- step relation, and its deadline bounds it.
--
-- Not modelled: the sockets and the clocks of the system; the settings of the terminal but for
-- whether the calls on them work; the
-- clearing of the other buffers, which leaves the values as they are; the deletion of the
-- executable. What they tell `main` is the record `Readings`. The time that `on_poll` takes to
-- draw is part of the time that passes. The release profile does not check additions and
-- subtractions of `usize`, so that they wrap.
pub mod Base
pub mod Vm
pub mod Build
pub mod Siv
pub mod Crypto
pub mod Archive
pub mod Clock
pub mod Tui
pub mod Seccomp
pub mod Host
pub mod Meta
