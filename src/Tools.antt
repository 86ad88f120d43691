-- ===== src/Tools.antt =====
-- app/tools/policies.py and app/tools/executor.py: the side-effect policy of a tool's name, and the
-- executor that every tool call of the graph goes through.
pub mod Policies
pub mod Executor
