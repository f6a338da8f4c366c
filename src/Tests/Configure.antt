-- ===== src/Tests/Configure.antt =====
-- src/builder.rs on a process that has not logged yet.
use ticklog.Base.{◌≡◌, refl, true, false, some, none, inl, [], ◌∷◌}
use ticklog.Base.Int.{pos, negsuc}
use ticklog.Base.Text.{ascii}
use ticklog.Configure.{
  TicklogError, Config, Statics, started, failed, configure_rt, validate, valid_offset, claim,
  install, is_segmented,
}
use ticklog.Configure.Once.{configure_rt_once}
use ticklog.Format.{default_spec}
use ticklog.Format.Chars.{is_all_digits}
use ticklog.Format.Check.{scan_name}
use ticklog.Format.Template.{
  message, Segment, parse, parse_loop, read_placeholder, place_at, read_field, from_str, admit,
  scan_close, read_spec, flush,
}
use ticklog.Policy.{Backpressure}
use ticklog.Ring.{from_storage, is_power_of_two}
use ticklog.Segments.{init, init_with_pool_size}
use ticklog.Shared.{Shared}

abbrev untouched : Shared
untouched = record {
  store = λ _. from_storage (λ _. 0) 64 false;
  used = 0;
  registry = [];
  next_serial = 0;
  installed = false;
  policy = Backpressure.drop;
  ring_capacity = 0;
  spares = [];
  lines = [];
}

abbrev at_start : Statics
at_start = record { backpressure = none; claimed = false; ring_capacity = none; shared = untouched }

abbrev half_past : Config
half_past = record {
  timezone_offset = pos 19800;
  ring_capacity = 4096;
  format = ascii "{message}";
  backpressure = Backpressure.quill;
}

abbrev configured : Statics
configured = record {
  backpressure = some Backpressure.quill;
  claimed = true;
  ring_capacity = some 4096;
  shared = record untouched { installed = true; policy = Backpressure.quill; ring_capacity = 4096 };
}

too_far_east :
    validate {Io = Unit} (record half_past { timezone_offset = pos 50401 })
    ≡ some (inl (TicklogError.invalid_timezone_offset (pos 50401)))
unfolding validate valid_offset
too_far_east = refl

too_far_west :
    validate {Io = Unit} (record half_past { timezone_offset = negsuc 43200 })
    ≡ some (inl (TicklogError.invalid_timezone_offset (negsuc 43200)))
unfolding validate valid_offset
too_far_west = refl

no_power :
    validate {Io = Unit} (record half_past { ring_capacity = 4095 })
    ≡ some (inl (TicklogError.invalid_ring_capacity 4095))
unfolding validate valid_offset is_power_of_two
no_power = refl

-- A thread that cannot be spawned leaves the registry claimed.
not_spawned :
    (s : Statics) × (configure_rt (some tt) half_past at_start
      ≡ some (s, failed (TicklogError.drain_spawn_failed tt)))
unfolding configure_rt validate valid_offset is_power_of_two parse claim install is_segmented init
    parse_loop read_placeholder place_at read_field from_str admit scan_close read_spec flush
    init_with_pool_size scan_name is_all_digits
not_spawned = (configured, refl)

configures :
    configure_rt {Io = Unit} none half_past at_start
    ≡ some (
      configured,
      started (record {
        timezone_offset = pos 19800;
        line_pattern = Segment.place message default_spec ∷ [];
        segmented = true;
      }),
    )
unfolding configure_rt validate valid_offset is_power_of_two parse claim install is_segmented init
    parse_loop read_placeholder place_at read_field from_str admit scan_close read_spec flush
    init_with_pool_size scan_name is_all_digits
configures = refl

configure_rt_once_example :
    (e : TicklogError Unit) × (configure_rt none
        (record half_past { backpressure = Backpressure.drop })
        configured
      ≡ some (configured, failed e))
configure_rt_once_example =
    configure_rt_once none none half_past (record half_past { backpressure = Backpressure.drop })
      at_start configured _ configures
