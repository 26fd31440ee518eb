-- ===== src/Lib.antt =====
-- dbextractors loads tables of source databases into PostgreSQL. This development models the parts of
-- it that decide what ends up in the target: which columns a target table has, which rows a read
-- hands over when connections drop, how they reach the target, what a failed load leaves there, how
-- changes and deletions are found, and which partitions a target has.
--
-- The parts and their files (paths of the program from the repository's root):
--
-- - Naming: src/dbextractors/core/naming.py. `Naming/Mapping.antt` has `create_column_mapping` and
--   `mage_clean_name`, `Naming/Words` the 825 reserved words of core/_reserved_words.py,
--   `Naming/Reserved.antt` `apply_reserved_word_prefix` and `clean_column_name`, and
--   `Naming/Columns.antt` `target_column_names` and `reconcile_with_existing`. A text is the list of
--   its code points. Python's case mappings and the classes `\w`, `\d`, `\s` of `re` are parameters
--   (`Naming/Unicode.antt`), with ASCII as the instance. The dictionaries are lists of entries. An
--   exception is a constructor of the result (`Named`).
-- - Reading: core/reading.py. `read_with_resume` is `read_with_resume`, a generator whose yielded
--   batches and whose ending are the result. The source is a parameter which gives, for an attempt
--   and a query, the batches that arrive and the exception that ends them, if any. A key is a number.
-- - Strategies: `Strategies/Batching.antt` has `chunked_list` and `resolve_batch_size` of
--   core/strategies/base.py; `Strategies/Watermark.antt` has `run`, `_load_new_rows` and
--   `_checkpoint_rows` of core/strategies/id_watermark.py, a transaction with a staging table,
--   checkpoints, and the clean-up after an exception. What fails, and at which batch, is an input.
--   `Strategies/HashDiff.antt` has `run`, `_precheck`, `_scan` and `_reseed_reason` of
--   core/strategies/hash_diff.py up to the choice of a full load or the difference,
--   `Strategies/HashDiff/Download.antt` its `_apply`, with the marks of deleted rows, and `_download`,
--   `Strategies/Full.antt` `run` and `_empty_target` of core/strategies/full.py,
--   `Strategies/Incremental.antt` the window of core/strategies/incremental.py, and
--   `Strategies/Abra.antt` `run` of core/strategies/abra_watermark.py up to the read.
--   `Strategies/ParentIncremental.antt` has `run` of core/strategies/parent_incremental.py.
--   `Strategies/BySource.antt` and `Strategies/BySource/Run.antt` have `run` of
--   core/strategies/full_by_source.py and its steps, over the rows and fingerprints that the
--   connection sees and those that it has committed; `Strategies/Fingerprint.antt` has `_fingerprint`.
-- - Target: `Target/CsvReader.antt` has `_CsvChunkReader` of core/target_pg.py;
--   `Target/Table.antt` a table with a unique key, and the statement of `_upsert_from_staging` of
--   core/strategies/incremental.py on it; `Target/Deletion.antt` `mark_deleted_in_source`, and
--   `Target/Snapshot.antt` `add`, `diff` and `changed_keys` of `SourceHashSnapshot`, and
--   `Target/SeenKeys.antt` the `filter_new` of `SeenKeys`, all of core/target_pg.py.
--   `Target/Sql.antt` has what their statements use of SQL: NULL in comparisons, and an UPDATE with
--   its row count. The rows of a query stand in the order of its first table. `Target/Replace.antt`
--   has `replace_by_key` of the same file, for targets without that unique key, and
--   `Target/Shadow.antt` its `swap_shadow_table`. `Target/Slices.antt` has what that file does with
--   the rows of one source and with the stored fingerprints; a partition holds the rows whose source
--   its bounds admit.
-- - Quoting: `Quoting.antt` has `sql_literal` of dialects/base.py and dialects/mysql.py, `quote_ident`
--   of core/target_pg.py, and `build_dsn` of core/target_conn.py. The rules by which PostgreSQL, MySQL
--   and libpq read the texts are written out as readers, in `Quoting/Literals.antt` and
--   `Quoting/Dsn.antt`.
-- - Retry: core/retry.py. `with_retry` is `with_retry`, of a function that answers by the number of
--   the call; the random factor of the waits is a parameter.
-- - Partitioning: core/partitioning.py. `Partitioning.antt` has the periods, over the calendar of
--   `Dates.antt`; `Partitioning/Names.antt` the names of partitions, `Partitioning/Catalog.antt`
--   `ensure_partitions_from_table` and what it calls, over the tables of the schema as the state,
--   and `Partitioning/Spec.antt` the specs, with `is_truthy` and `_partition_by` of core/config.py.
--   SHA-1, `date.fromisoformat` and which CREATE TABLE PostgreSQL refuses are parameters.
-- - Entrypoint: entrypoint.py. `run_all` is `_run`, whose loop over the databases passes on what the
--   run of each leaves; `Entrypoint.antt` also has `resolve_strategy` of core/strategies/base.py.
--   `Entrypoint/Sources.antt` runs the loop with the load by source.
--
-- They meet where the program's do: the watermark load writes through the upsert of Target, and the
-- query of its next run is the query above a key that Reading resumes with; the choice of the hash
-- strategy is made on the difference that Target counts. The full load reads through Reading, filters
-- by the seen keys, and swaps through Target, which makes the partitions. The load by source makes
-- its partitions through Partitioning.
--
-- Loops are recursions on what they consume: the batches of a stream, the chunks of a reader, and in
-- `read_loop` and `retry_loop` the attempts that are left, of which the program's `range` fixes the
-- number; only the digits of a number go by fuel, for which the number itself is enough. Counts,
-- keys and sizes are natural numbers without a bound, as the integers of Python are; a size in MB is
-- kept in hundredths, and a quotient that the program takes in floating point is exact. Only
-- the window of an incremental load has settings that may be negative.
--
-- Not modelled: the SQL dialects and their drivers, pandas' own behaviour, value coercion, logging,
-- the rest of the configuration, the tunnel, and the golden tests' tooling.
pub mod Base
pub mod Dates
pub mod Strategies
pub mod Naming
pub mod Partitioning
pub mod Reading
pub mod Quoting
pub mod Retry
pub mod Entrypoint
pub mod Target
mod Tests
