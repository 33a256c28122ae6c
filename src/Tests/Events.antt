-- ===== src/Tests/Events.antt =====
-- A session that loads the skill, and then writes a governed file with a finding.
use tesser_build.Prelude.{
  ℕ, Str, str, before, after, true, ◌≡◌, ◌≢◌, false, refl, List, [], ◌∷◌, ◌++◌, list_eq, nat_eq,
  contains, Option, none, some, if◌then◌else◌, ◌==◌, arith,
}
use tesser_build.Prelude.Lists.{length}
use tesser_build.Service.CheckWrite.{CheckWriteResponse}
use tesser_build.HookCli.Format.{preamble, bounded}
use tesser_build.HookCli.Write.{answered}
use tesser_build.HookCli.Events.{State, Event, Logged, Answer, handle, handle_all, write_tools}
use tesser_build.HookCli.Events.Laws.{handle_all-is_sound, handle_stops, is_sound}

-- A record as its way and its path, with a blank between them.
abbrev dumps : Str → Str → Str → Str
dumps stamp via path = via ++ b' ' ∷ path

abbrev loads : Str → Option (Str × Str)
loads line = some (before b' ' line, after b' ' line)

abbrev bytes : Str → ℕ
bytes s = length s

-- One session is old, and one has read a file of the skill.
abbrev start : State
start = record {
  linked = false;
  store = record {
    linked = false;
    files = (str "old", str "read SKILL.md\n") ∷ (str "s1", str "read SKILL.md\n") ∷ [];
  };
  log = [];
}

abbrev response : CheckWriteResponse
response = record {
  governance = str "governed";
  mode = str "feedback";
  action = str "feedback";
  findings = str "shop/domain/order.py:3: TB053 no alias" ∷ [];
  codes = str "TB053" ∷ [];
}

abbrev modified : Str → ℕ
modified session = if session == str "s1" then 1999990 else 7

abbrev write_event : Event
write_event = record {
  tool = str "Write";
  session = str "s1";
  file_path = str "/work/shop/domain/order.py";
  named = [];
  stamp = [];
  now = 2000000;
  relative = none;
  conf = str "mode = feedback\n";
  relpath = str "shop/domain/order.py";
  in_tree = true;
  run = answered response;
  modified = modified;
}

abbrev skill_event : Event
skill_event = record write_event { tool = str "Skill"; named = str "/tesser-build" ∷ [] }

-- The sessions' files after both events: the write removes those that were not modified for a week.
abbrev logged : Logged
logged = record {
  session = str "s1";
  guidance = str "read:SKILL.md" ∷ str "skill:tesser-build" ∷ [];
  line = record {
    placement = str "governed";
    findings = str "TB053:shop/domain/order.py" ∷ [];
    findings_count = 1;
    mode = str "feedback";
    status = str "ok";
    error = none;
    exit_code = 2;
  };
}

abbrev events : List Event
events = skill_event ∷ write_event ∷ []

abbrev after_both : State
after_both = record {
  linked = false;
  store = record {
    linked = false;
    files = (str "s1", str "read SKILL.md\nskill tesser-build\n") ∷ [];
  };
  log = logged ∷ [];
}

both_run : handle_all dumps loads bytes start events ≡ after_both
unfolding handle_all before after str list_eq nat_eq contains
both_run = refl

start-is_sound : is_sound start ≡ true
unfolding str
start-is_sound = refl

handle_all-is_sound_example : is_sound (handle_all dumps loads bytes start events) ≡ true
handle_all-is_sound_example = handle_all-is_sound dumps loads bytes start events start-is_sound

abbrev stopped : Answer
stopped = record {
  state = record after_both {
    store = record { linked = false; files = (str "s1", str "read SKILL.md\n") ∷ [] };
    log = record logged { guidance = str "read:SKILL.md" ∷ [] } ∷ [];
  };
  stdout = none;
  stderr = some (preamble ++ (b'\n' ∷ bounded response.findings));
  exit_code = 2;
}

write_stops : handle dumps loads bytes start write_event ≡ stopped
unfolding handle before after str list_eq nat_eq contains
write_stops = refl

not_passed : (handle dumps loads bytes start write_event).exit_code ≢ 0
not_passed h = absurd (ground (arith, write_stops, h))

handle_stops_example :
    (contains write_tools (str "Write") ≡ true)
    × ((handle dumps loads bytes start write_event).exit_code ≡ 2)
    × ((handle dumps loads bytes start write_event).stderr ≢ none)
    × ((handle dumps loads bytes start write_event).stdout ≡ none)
handle_stops_example = handle_stops dumps loads bytes start write_event not_passed
