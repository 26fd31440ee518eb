-- ===== src/Tests/Entrypoint.antt =====
-- Runs over the databases "a" and "b".
use dbextractors.Base.{
  ℕ, ◌≡◌, refl, true, false, Bool, Option, none, some, List, [], ◌∷◌, arith, Text, codes, text_Eq,
  ◌==◌, All, or_else, ltb, length, if◌then◌else◌,
}
use dbextractors.Naming.Unicode.{ascii}
use dbextractors.Dates.{Date}
use dbextractors.Partitioning.Spec.{flag, null, is_truthy, strip_start, strip_end}
use dbextractors.Partitioning.Catalog.{Relation, Catalogue, relation}
use dbextractors.Reading.{finished}
use dbextractors.Target.Slices.{Store, cut_slice, replace_source_slice}
use dbextractors.Target.Slices.Cuts.{rows_of, slice, HasOwnPartition}
use dbextractors.Strategies.BySource.{
  SourceSettings, stage, prepare_target, can_skip, resolve_partitioning, validate, finish_source,
  finish_index,
}
use dbextractors.Strategies.BySource.Run.{run_by_source, run_after, load, replace_slice, swap_slice}
use dbextractors.Strategies.BySource.Replaces.{no_faults}
use dbextractors.Entrypoint.{
  ChoiceSettings, full, full_by_source, clean, choose_strategy, settings_dict, resolve_dialect,
  postgres, run_databases, run_selected, id_watermark, strategy_name, resolve_strategy,
  resume_is_watermark, parent_incremental_applies, named_strategy,
}
use dbextractors.Entrypoint.Forced.{KeepsNames, choose_strategy_forced}
use dbextractors.Entrypoint.Statuses.{Reported, run_selected-Reported}
use dbextractors.Entrypoint.Sources.{
  SourceInput, run_source, beginnings, own_end, HasOwn, run_sources_slice,
}

ascii-KeepsNames : KeepsNames ascii
unfolding strip_start strip_end
ascii-KeepsNames = record { full_kept = refl; full_by_source_kept = refl }

abbrev choice : ChoiceSettings
choice = record {
  force_reload = null;
  resume_full_load = flag true;
  incremental_parent_table = null;
}

forced_on : is_truthy ascii (flag true) ≡ true
unfolding is_truthy
forced_on = refl

choose_strategy_forced_example :
    (choose_strategy ascii (codes "id_watermark") choice (flag true) ≡ (
      if clean ascii (codes "id_watermark") == codes "full_by_source"
      then some full_by_source
      else some full))
    × ((settings_dict ascii choice (flag true)).force_reload ≡ flag true)
choose_strategy_forced_example =
    choose_strategy_forced ascii ascii-KeepsNames choice (codes "id_watermark") (flag true)
      forced_on

resumed : choose_strategy ascii (codes "Full ") choice null ≡ some id_watermark
unfolding choose_strategy strategy_name settings_dict is_truthy resolve_strategy resume_is_watermark
    parent_incremental_applies named_strategy strip_start strip_end
resumed = refl

aliased : resolve_dialect ascii (codes "PostgreSQL") ≡ some postgres
unfolding resolve_dialect strip_start strip_end
aliased = refl

-- The run of "b" raises, and counts nothing.
abbrev counting : Option Text → Text → Bool → Bool → ℕ → Bool × ℕ
counting label database first last n = if database == codes "b" then (false, n) else (true, 5)

run_selected-Reported_example :
    Reported counting
      (or_else none (ltb 1 (length (codes "a" ∷ codes "b" ∷ []))))
      (codes "a" ∷ codes "b" ∷ [])
      0
      (run_selected counting none (codes "a" ∷ codes "b" ∷ []) 0)
run_selected-Reported_example = run_selected-Reported counting none (codes "a" ∷ codes "b" ∷ []) 0

abbrev settings : SourceSettings
settings = record {
  supported = true;
  source_label = none;
  partition_by_source = false;
  spec = none;
  force_reload = false;
  empty_rows_ok = false;
  is_last_source = false;
  pk_known = true;
}

abbrev input : Text → SourceInput ℕ
input database = record {
  faults = no_faults;
  mark = none;
  estimate = 1;
  read = (record { has_key = true; rows = length database ∷ [] } ∷ [], finished);
}

abbrev refuses : Catalogue → Relation → Bool
refuses cat r = false

abbrev no_dates : Text → Option Date
no_dates s = none

abbrev digest : Text → Text
digest s = []

abbrev no_table : Store ℕ
no_table = record { target = none; catalogue = []; fingerprints = [] }

abbrev databases : List Text
databases = codes "a" ∷ codes "b" ∷ []

nothing_found : (part : Text) (r : Relation) → ¬ (relation part [] ≡ some r)
unfolding relation
nothing_found part r found = ground arith

nothing_named :
    (label : Text) (cat : Catalogue)
    → cat ≡ []
    → HasOwnPartition (codes "t") ascii digest no_dates label cat
nothing_named label [] h = record { own = λ part r is found. absurd (nothing_found part r found) }
nothing_named label (r ∷ cat) h = absurd (ground arith)

no_partition :
    (run_source
      (codes "t")
      refuses
      ascii
      digest
      no_dates
      settings
      input
      (some (codes "a"))
      (codes "a")
      true
      false
      no_table).1.catalogue
    ≡ []
unfolding run_by_source validate can_skip run_after load resolve_partitioning replace_slice stage
    swap_slice prepare_target replace_source_slice cut_slice finish_source finish_index
no_partition = refl

own_beginnings :
    All
      (HasOwn (codes "t") refuses ascii digest no_dates settings input)
      (beginnings (codes "t") refuses ascii digest no_dates settings input true databases no_table)
own_beginnings = (nothing_named (codes "a") [] refl, (nothing_named (codes "b") _ no_partition, tt))

run_sources_slice_example :
    slice (codes "a") (
      rows_of
        (run_databases
          (run_source (codes "t") refuses ascii digest no_dates settings input)
          true
          true
          databases
          no_table).1)
    ≡ slice (codes "a") (
        rows_of (
          own_end
            (codes "t")
            refuses
            ascii
            digest
            no_dates
            settings
            input
            (codes "a")
            true
            databases
            no_table))
run_sources_slice_example =
    run_sources_slice (codes "t") refuses ascii digest no_dates settings input (codes "a") true
      databases no_table (refl, (refl, tt)) own_beginnings
