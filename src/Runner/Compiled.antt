-- ===== src/Runner/Compiled.antt =====
-- Run on a graph that Compile has made.
use forgeci.Base.{List, String, [], length, subst, ℕ, ◌+◌, ◌≡◌, ◌≤◌}
use forgeci.Compiler.{Graph, compile, compiled, nodes_of}
use forgeci.Compiler.Complete.{compile-IsCovered}
use forgeci.Compiler.Correctness.{NeedsKnown, compile-IsOrdered}
use forgeci.Compiler.Links.{DistinctNames}
use forgeci.Compiler.Order.{IsOrdered}
use forgeci.Compiler.Validated.{validate-NeedsKnown}
use forgeci.Config.{Pipeline}
use forgeci.Config.Parser.{parsed, Yaml, parse, parse-accepted}
use forgeci.Runner.{Progress, Turn, ended, run_pipeline}
use forgeci.Runner.Correctness.{CanRun, parallel, run_pipeline-IsValid, run_pipeline-ends}
use forgeci.Runner.Ending.{IsFinal}
use forgeci.Runner.Schedule.{IsValid}
use forgeci.Runner.Turns.{IsValidOutcome}

-- If the jobs of a pipeline have distinct names and every need is the name of a job, and Compile
-- returns a graph, then Run on it ends once it has met two more turns than there are jobs, which can
-- be met: each job is then in a last state, and the needs of each job that has passed have passed.
pub compile-run_pipeline :
    (cfg : Pipeline) (g : Graph) (max_parallel : ℕ) (turns : List Turn)
    → DistinctNames (nodes_of cfg.jobs)
    → NeedsKnown (nodes_of cfg.jobs)
    → compile cfg ≡ compiled g
    → CanRun g max_parallel turns
    → length g.nodes + 2 ≤ length turns
    → (p : Progress) × (run_pipeline g max_parallel turns ≡ ended p)
      × IsFinal p
      × IsValid g (parallel max_parallel) p
compile-run_pipeline cfg g max_parallel turns distinct known h meets enough =
    let covered = compile-IsCovered cfg g distinct known h in
    let (p, e, final) = run_pipeline-ends g max_parallel turns covered meets enough in
    let valid = run_pipeline-IsValid g max_parallel turns covered meets in
    (p, e, final, (subst (IsValidOutcome g (parallel max_parallel)) e valid).0)

-- If the names of the jobs are distinct and Parse has made the pipeline of a text, then each job of the
-- graph that Compile returns stands in its order after all that it needs, and Run on the graph ends
-- once it has met two more turns than there are jobs, which can be met, with each job in a last state.
pub parse-run_pipeline :
    (yaml : Yaml) (text : String) (cfg : Pipeline) (g : Graph) (max_parallel : ℕ)
    (turns : List Turn)
    → DistinctNames (nodes_of cfg.jobs)
    → parse yaml text ≡ parsed cfg
    → compile cfg ≡ compiled g
    → CanRun g max_parallel turns
    → length g.nodes + 2 ≤ length turns
    → IsOrdered g.nodes [] g.order
      × ((p : Progress) × (run_pipeline g max_parallel turns ≡ ended p) × IsFinal p)
parse-run_pipeline yaml text cfg g max_parallel turns distinct read h meets enough =
    let known = validate-NeedsKnown cfg distinct (parse-accepted yaml text cfg read) in
    (
      compile-IsOrdered cfg g distinct known h,
      run_pipeline-ends g max_parallel turns (compile-IsCovered cfg g distinct known h) meets
          enough,
    )
