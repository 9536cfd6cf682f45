-- ===== src/Program/Tests.antt =====
-- A start with three saved positions, and the theorems on the program at it.
use hftalgorithms.Base.{◌≡◌, refl, true, some, [], ◌∷◌, arith, subst, sym, All}
use hftalgorithms.Base.Int.{ℤ, pos, negsuc}
use hftalgorithms.Base.Double.{exact}
use hftalgorithms.Base.Text.{
  Text, codes, find, strip, has, to_string, to_string_ℕ, digits, signed, scan, skip_spaces,
}
use hftalgorithms.EtfClient.{health_check}
use hftalgorithms.EtfClient
use hftalgorithms.OrderEntry.Protocol.{success}
use hftalgorithms.Symbols.{init, make_slots}
use hftalgorithms.Symbols.Cache.{init-IsReady, IsListed}
use hftalgorithms.Symbols.Saved.{position_of, HasI32}
use hftalgorithms.Symbols.File.{written, entries_in, read_lines}
use hftalgorithms.Base.Text.Stream.{extract_u32, extract_i32, unsigned, with_rest, drop_digits}
use hftalgorithms.Base.Dict.{lookup, insert}
use hftalgorithms.EtfArb.{Bot, World}
use hftalgorithms.EtfArb.Safe.{IsFair, IsSound}
use hftalgorithms.Program.{Setting, starts, connect, start, main, interrupt, new_arb}
use hftalgorithms.Program.Starting.{
  main-EndsWell, EndsWell, interrupt-start, serves, new_arb-IsSound,
}

abbrev setting : Setting
setting = record {
  positions = codes "1 7\n2 -4\n13 1\n";
  opens_socket = true;
  is_accepted = true;
  live = record { opens = true; binds = true; joins = true };
  replay = record { opens = true; binds = true; joins = true };
  welcome = some (record { session_id = 5; status = success });
  inbox = [];
  password = codes "pw";
  unset_id = 0;
}

-- The service answers, and no market data arrives.
abbrev world : World
world = record {
  market = λ n. [];
  clock = λ n. n;
  network = λ request. codes "HTTP/1.0 200 OK\r\n\r\n{\"ok\":true}";
}

world-IsFair : IsFair world
world-IsFair n = tt

served : serves world setting ≡ true
unfolding connect health_check find strip has EtfClient.new_client EtfClient.parse_base_url
served = refl

-- What three positions are written as, and read back.
test_written : written ((1, pos 7) ∷ (2, negsuc 3) ∷ []) ≡ codes "1 7\n2 -4\n"
unfolding to_string to_string_ℕ digits
test_written = refl

test_entries_in :
    entries_in (codes "1 7\n2 -4\n13 1\n") ≡ (1, pos 7) ∷ (2, negsuc 3) ∷ (13, pos 1) ∷ []
unfolding read_lines extract_u32 extract_i32 unsigned with_rest signed scan skip_spaces drop_digits
test_entries_in = refl

main-EndsWell_example : EndsWell world setting (main {D = ℤ} world 3 2 setting)
main-EndsWell_example =
    main-EndsWell ℤ world 3 2 setting
      (subst (All (λ l. IsListed l.0)) (sym test_entries_in) (
        (omega arith, omega arith),
        ((omega arith, omega arith), ((omega arith, omega arith), tt)),
      ))
      world-IsFair

abbrev bot : Bot ℤ
bot =
    new_arb init
      (record {
        session_id = 5;
        seq_num = 1;
        client_id = 8;
        live_orders = [];
        inbox = [];
        sent = [];
        calls = [];
      })
      (record { host = []; port = []; team_name = []; password = [] })

bot-HasI32 : HasI32 bot.sm
unfolding init make_slots lookup insert
bot-HasI32 id listed = ground arith

interrupt-start_example :
    (file : Text) × (b' : Bot ℤ) × (interrupt bot ≡ some file)
    × (start world (record setting { positions = file }) ≡ starts b')
    × IsSound b'
    × (position_of 3 b'.sm ≡ position_of 3 bot.sm)
interrupt-start_example =
    interrupt-start world setting bot 3 (new_arb-IsSound _ _ _ init-IsReady) bot-HasI32
      (omega arith, omega arith) served
